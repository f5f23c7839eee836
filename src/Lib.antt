-- ===== src/Lib.antt =====
-- The certificate connector between the ILM platform and Microsoft ADCS
-- (pyadcs_connector/PyADCSConnector).
--
-- The connector serves HTTP requests. It keeps authority instances, discoveries and the discovered
-- certificates in PostgreSQL, and drives the certification authorities through PowerShell scripts
-- over WinRM, whose printed output it parses. A discovery runs in a thread of its own: it collects
-- certificates, then persists them in one transaction. A background sweep deletes certificates
-- that no discovery links.
--
-- Files and what they model:
--   Prelude: shared names; Prelude/Exceptions has the exception classes (exceptions/*.py) and
--     `Result`, what a call returns or raises.
--   Text: Python's `str` as a list of code points, with strip, split, startswith, join and replace;
--     Text/Utf8 decodes and encodes bytes, Text/SplitLines is `splitlines`; Text/Laws, Text/Lines and
--     Text/Order have their laws.
--   Json: the values of `json.loads` and Python's dynamic operations on them, with the exceptions
--     they raise.
--   Dump: utils/dump_parser.py. Dump/Template and Dump/Certificate are the loops of
--     `parse_template_data` and `parse_certificates`, with the loop variables as a record, and
--     their child RoundTrip reads back printed records; Dump/Authority is `parse_authority_data`;
--     Dump/Identified is `parse_identified_certificates`; Dump/Dicts has `to_dict` and `from_dict`.
--   Attribute: services/attributes/*.py (one module per file, constants in a child), and
--     Attribute/Access for utils/attribute_definition_utils.py.
--   Db: models/*.py, the tables as lists of rows with the sequences of their identifiers, and the
--     constraints as the record `IsConsistent`; Db/Rows has the queries.
--   Discovery: services/discovery_history.py and views/discovery_history.py:
--     `create_discovery_history`, `delete_request` and `delete_discovery` (the DELETE branch, for
--     the text of a path and for a UUID), `finish_discovery` (the end of `run_discovery`);
--     Discovery/Creation, Discovery/Life and Discovery/Settled say what they do; Discovery/Persist is the transaction of `discover_certificates`;
--     Discovery/Collect is what `discover_certificates` does before it, the loop over pages with
--     fuel; Discovery/Run is `run_discovery` from the request on; Discovery/Response is
--     `get_discovery_history_data` with the objects/discovery_*_dto.py.
--   Cleanup: services/certificate_cleanup.py: `claim_lease`, `delete_orphan_batch`, `sweep` (the
--     loop of `run_cleanup_once`), `run_cleanup_once`; Cleanup/Scheduler is the start of its thread.
--   Remoting: remoting/winrm_remoting.py: `check_result` and `run_ps` over what the WinRM library
--     answers. Remoting/Session is the session object, with the shells that are open on the server,
--     over an arbitrary implementation of the library (`Protocol`); `Remote` is a computation that
--     talks to the server, where an exception keeps what was done before it. Remoting/Scripts has
--     the scripts of remoting/winrm/scripts.py.
--   Authority: services/authority_instance.py and views/authority_instance.py:
--     `update_authority_instance` reads a request in Authority/Requested; `serve` is a request with
--     the rollback of its transaction, and the argument `saved_by` says whether the columns take the
--     values; Authority/Names and Authority/Usable are about the rows of the table, whatever is
--     requested; Authority/Sessions is `create_session_from_authority_instance`.
--   Certificates: services/certificate_management.py; Certificates/Requests has what needs no server.
--   Cms: utils/cms_utils.py; Cms/Structures has the structures that it fills in and, as the record
--     `Asn1`, what it takes from the ASN.1 library.
--   Views: views/attributes.py, views/callbacks.py and the statuses of
--     exceptions/exception_handler.py.
--   Routes: pyadcs_connector/urls.py, with the methods that the views take, and in
--     Routes/Endpoints the list of views/info.py.
--   Migration: migrations/0002_shared_certificate_store.py, from the tables of migration 0001 to
--     those of Db.
--   Fingerprint: utils/certificate_fingerprint.py.
--   Revocation: utils/revocation_reason.py.
--   System: the transactions of Discovery and Cleanup on one database, in any order, as a step relation on
--     the database and the discoveries whose threads run; System/Start, System/Steps and
--     System/Changes say what each of them keeps.
--   Store: an abstract view of the database, the contents of the certificates of each discovery,
--     and what a transaction may do to it.
--   Tests: instances and runs on concrete inputs.
--
-- A transaction is a function on the database; one that fails leaves the database as it was. Other
-- transactions can run between the batches of a sweep and between collecting and persisting.
-- What the connector does not implement is an argument: the WinRM library (the opening and the
-- closing of the session of a collection are `connected` and `disconnected`), the ASN.1 library,
-- `eval`, SHA-256, the UUIDs that `uuid4` gives, what the column of UUIDs makes of the text of a
-- path (`to_python` of `delete_request`; all other functions are given a UUID as the column reads
-- it), the clock and the advisory lock, the text of an exception, and the order in which the
-- database comes upon rows where SQL leaves it open (`Planner`, `ByUuid`). In System a UUID that
-- `uuid4` gives is not in use, and a thread ends with whatever it collected, or is lost. The loop
-- of the sweep takes fuel; one round more than there are certificates within its bound is enough;
-- the loop over pages is given more fuel than the server has pages. Texts are code points, times
-- are whole seconds, and fractional JSON numbers are left out.
--
-- Store and Migration assume that SHA-256 tells all bytes apart, as the connector does when it takes
-- the fingerprint for the certificate. A server numbers a new shell apart from the open ones, where
-- a theorem says so. A migration is one transaction; the order in which it comes upon rows is an
-- argument (`Order`).
--
-- Not modelled: DER and the loading of CRMF requests (arguments of Cms, as create_cms itself is one
-- of Certificates), the conversion of responses to JSON, the loop of the cleanup's thread, and
-- the settings.
mod Prelude
pub mod Text
pub mod Json
pub mod Dump
pub mod Attribute
mod Fingerprint
pub mod Db
pub mod Cleanup
pub mod Discovery
mod Remoting
mod Revocation
mod Authority
pub mod Routes
mod Certificates
mod Cms
pub mod Views
mod Migration
mod Store
mod System
mod Tests
