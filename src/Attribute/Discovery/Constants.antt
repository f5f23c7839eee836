-- ===== src/Attribute/Discovery/Constants.antt =====
-- The constants of services/attributes/discovery_attributes.py.
use pyadcs_connector.Text.{Text, codes}

abbrev pub discovery_info_attribute_name : Text
discovery_info_attribute_name = codes "discovery_info"

abbrev pub discovery_info_attribute_uuid : Text
discovery_info_attribute_uuid = codes "6daef143-0c76-46db-a162-bc38cf70951f"

abbrev pub discovery_info_attribute_label : Text
discovery_info_attribute_label = codes "Discovery Information"

abbrev pub discovery_info_attribute_description : Text
discovery_info_attribute_description = codes "How to use Discovery Attributes"

abbrev pub discovery_authority_instance_attribute_name : Text
discovery_authority_instance_attribute_name = codes "discovery_authority_instance"

abbrev pub discovery_authority_instance_attribute_uuid : Text
discovery_authority_instance_attribute_uuid = codes "b0026fc5-cbee-447b-9e6c-1b1a20f183e4"

abbrev pub discovery_authority_instance_attribute_label : Text
discovery_authority_instance_attribute_label = codes "Authority Instance"

abbrev pub discovery_authority_instance_attribute_description : Text
discovery_authority_instance_attribute_description = codes "Choose the authority instance to use"

abbrev pub discovery_ca_name_attribute_name : Text
discovery_ca_name_attribute_name = codes "discovery_ca_name"

abbrev pub discovery_ca_name_attribute_uuid : Text
discovery_ca_name_attribute_uuid = codes "c725fa53-a3f2-4d24-909d-c40a52a93c01"

abbrev pub discovery_ca_name_attribute_label : Text
discovery_ca_name_attribute_label = codes "CA Name"

abbrev pub discovery_ca_name_attribute_description : Text
discovery_ca_name_attribute_description = codes "Identification of the certification authority"

abbrev pub discovery_issued_after_attribute_name : Text
discovery_issued_after_attribute_name = codes "discovery_issued_after"

abbrev pub discovery_issued_after_attribute_uuid : Text
discovery_issued_after_attribute_uuid = codes "f1b49091-de61-4806-95de-02ed94f8f954"

abbrev pub discovery_issued_after_attribute_label : Text
discovery_issued_after_attribute_label = codes "Issued After"

abbrev pub discovery_issued_after_attribute_description : Text
discovery_issued_after_attribute_description =
    codes "Select certificates issued after this date (notBefore)"

abbrev pub discovery_issued_days_before_attribute_name : Text
discovery_issued_days_before_attribute_name = codes "discovery_issued_days_before"

abbrev pub discovery_issued_days_before_attribute_uuid : Text
discovery_issued_days_before_attribute_uuid = codes "bccd95b2-c580-4311-baff-7099aeb57b48"

abbrev pub discovery_issued_days_before_attribute_label : Text
discovery_issued_days_before_attribute_label = codes "Number of days before discovery"

abbrev pub discovery_issued_days_before_attribute_description : Text
discovery_issued_days_before_attribute_description =
    codes "Maximum number of days before the certificate was issued, from running the discovery"

abbrev pub discovery_select_ca_method_attribute_name : Text
discovery_select_ca_method_attribute_name = codes "discovery_select_ca_method"

abbrev pub discovery_select_ca_method_attribute_uuid : Text
discovery_select_ca_method_attribute_uuid = codes "ad5e1ca6-a018-43b3-8d36-17a1deb61cb8"

abbrev pub discovery_select_ca_method_attribute_label : Text
discovery_select_ca_method_attribute_label = codes "Select CA Method"

abbrev pub discovery_select_ca_method_attribute_description : Text
discovery_select_ca_method_attribute_description =
    codes "Select how the CA will be chosen, either by ComputerName or search"

abbrev pub discovery_ca_select_group_attribute_name : Text
discovery_ca_select_group_attribute_name = codes "discovery_ca_select_group"

abbrev pub discovery_ca_select_group_attribute_uuid : Text
discovery_ca_select_group_attribute_uuid = codes "b5cd936c-5375-48d9-bd34-4e859195f1af"

abbrev pub discovery_ca_select_group_attribute_label : Text
discovery_ca_select_group_attribute_label = codes "CA Select Group Attribute"

abbrev pub discovery_ca_select_group_attribute_description : Text
discovery_ca_select_group_attribute_description = codes "For identification of select CA method"

abbrev pub discovery_template_name_attribute_name : Text
discovery_template_name_attribute_name = codes "discovery_template_name"

abbrev pub discovery_template_name_attribute_uuid : Text
discovery_template_name_attribute_uuid = codes "53286673-be2a-453f-9998-cab67dbb4620"

abbrev pub discovery_template_name_attribute_label : Text
discovery_template_name_attribute_label = codes "Certificate Template Name"

abbrev pub discovery_template_name_attribute_description : Text
discovery_template_name_attribute_description = codes "Select certificate templates to use"

abbrev pub discovery_configstring_attribute_name : Text
discovery_configstring_attribute_name = codes "discovery_config_string"

abbrev pub discovery_configstring_attribute_uuid : Text
discovery_configstring_attribute_uuid = codes "ab4f8573-bf55-4863-b2ce-44597b111cf9"

abbrev pub discovery_configstring_attribute_label : Text
discovery_configstring_attribute_label = codes "CA ConfigString"

abbrev pub discovery_configstring_attribute_description : Text
discovery_configstring_attribute_description = codes "ConfigString of the CA"
