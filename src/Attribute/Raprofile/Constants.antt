-- ===== src/Attribute/Raprofile/Constants.antt =====
-- The constants of services/attributes/raprofile_attributes.py.
use pyadcs_connector.Text.{Text, codes}

abbrev pub raprofile_select_ca_method_attribute_name : Text
raprofile_select_ca_method_attribute_name = codes "raprofile_select_ca_method"

abbrev pub raprofile_select_ca_method_attribute_uuid : Text
raprofile_select_ca_method_attribute_uuid = codes "9b5b38a2-9bcc-4178-8d02-7817cc3f3ada"

abbrev pub raprofile_select_ca_method_attribute_label : Text
raprofile_select_ca_method_attribute_label = codes "Select CA Method"

abbrev pub raprofile_select_ca_method_attribute_description : Text
raprofile_select_ca_method_attribute_description =
    codes "Select how the CA will be chosen, either by ComputerName or search"

abbrev pub raprofile_ca_select_group_attribute_name : Text
raprofile_ca_select_group_attribute_name = codes "raprofile_ca_select_group"

abbrev pub raprofile_ca_select_group_attribute_uuid : Text
raprofile_ca_select_group_attribute_uuid = codes "0f26f6a0-94ca-420b-bbd8-4324218d7692"

abbrev pub raprofile_ca_select_group_attribute_label : Text
raprofile_ca_select_group_attribute_label = codes "CA Select Group Attribute"

abbrev pub raprofile_ca_select_group_attribute_description : Text
raprofile_ca_select_group_attribute_description = codes "For identification of select CA method"

abbrev pub raprofile_template_name_attribute_name : Text
raprofile_template_name_attribute_name = codes "raprofile_template_name"

abbrev pub raprofile_template_name_attribute_uuid : Text
raprofile_template_name_attribute_uuid = codes "da285a61-822a-4508-a565-ce366de66980"

abbrev pub raprofile_template_name_attribute_label : Text
raprofile_template_name_attribute_label = codes "Certificate Template Name"

abbrev pub raprofile_template_name_attribute_description : Text
raprofile_template_name_attribute_description = codes "Select certificate templates to use"

abbrev pub raprofile_authority_uuid_attribute_name : Text
raprofile_authority_uuid_attribute_name = codes "raprofile_authority_uuid"

abbrev pub raprofile_authority_uuid_attribute_uuid : Text
raprofile_authority_uuid_attribute_uuid = codes "8c4c213a-9bd4-4d49-9812-a539a2deac16"

abbrev pub raprofile_authority_uuid_attribute_label : Text
raprofile_authority_uuid_attribute_label = codes "Authority UUID"

abbrev pub raprofile_authority_uuid_attribute_description : Text
raprofile_authority_uuid_attribute_description = codes "UUID of selected authority"

abbrev pub raprofile_configstring_attribute_name : Text
raprofile_configstring_attribute_name = codes "raprofile_config_string"

abbrev pub raprofile_configstring_attribute_uuid : Text
raprofile_configstring_attribute_uuid = codes "2cc47472-f01c-40fd-8291-a2937dacec53"

abbrev pub raprofile_configstring_attribute_label : Text
raprofile_configstring_attribute_label = codes "CA ConfigString"

abbrev pub raprofile_configstring_attribute_description : Text
raprofile_configstring_attribute_description = codes "ConfigString of the CA"

abbrev pub raprofile_ca_name_attribute_name : Text
raprofile_ca_name_attribute_name = codes "raprofile_ca_name"

abbrev pub raprofile_ca_name_attribute_uuid : Text
raprofile_ca_name_attribute_uuid = codes "86a3fcb9-d74e-4b2c-b78d-3f71b1181472"

abbrev pub raprofile_ca_name_attribute_label : Text
raprofile_ca_name_attribute_label = codes "CA Name"

abbrev pub raprofile_ca_name_attribute_description : Text
raprofile_ca_name_attribute_description = codes "Identification of the certification authority"
