-- ===== src/Attribute/Metadata/Constants.antt =====
-- The constants of services/attributes/metadata_attributes.py.
use pyadcs_connector.Text.{Text, codes}

abbrev pub metadata_ca_name_attribute_name : Text
metadata_ca_name_attribute_name = codes "metadata_ca_name"

abbrev pub metadata_ca_name_attribute_uuid : Text
metadata_ca_name_attribute_uuid = codes "8dbc74f1-32e7-427a-9764-046b6400c054"

abbrev pub metadata_ca_name_attribute_label : Text
metadata_ca_name_attribute_label = codes "CA Name"

abbrev pub metadata_ca_name_attribute_description : Text
metadata_ca_name_attribute_description = codes "CA name"

abbrev pub metadata_template_name_attribute_name : Text
metadata_template_name_attribute_name = codes "metadata_template_name"

abbrev pub metadata_template_name_attribute_uuid : Text
metadata_template_name_attribute_uuid = codes "a1a9946c-190e-4e6d-9090-718ec9c99625"

abbrev pub metadata_template_name_attribute_label : Text
metadata_template_name_attribute_label = codes "Certificate Template Name"

abbrev pub metadata_template_name_attribute_description : Text
metadata_template_name_attribute_description = codes "Certificate template name"

abbrev pub metadata_failed_reason_attribute_name : Text
metadata_failed_reason_attribute_name = codes "metadata_failed_reason"

abbrev pub metadata_failed_reason_attribute_uuid : Text
metadata_failed_reason_attribute_uuid = codes "d568c856-6b18-46a7-863f-30032d433d97"

abbrev pub metadata_failed_reason_attribute_label : Text
metadata_failed_reason_attribute_label = codes "Failed Reason"

abbrev pub metadata_failed_reason_attribute_description : Text
metadata_failed_reason_attribute_description = codes "Failed reason"
