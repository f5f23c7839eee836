-- ===== src/Attribute.antt =====
-- services/attributes: the attribute definitions that the connector offers.
pub mod Build
pub mod CaSelect
pub mod Metadata
pub mod Authority
pub mod Discovery
pub mod Raprofile
pub mod Access
