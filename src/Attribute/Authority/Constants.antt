-- ===== src/Attribute/Authority/Constants.antt =====
-- The constants of services/attributes/authority_attributes.py.
use pyadcs_connector.Text.{Text, codes}

abbrev pub authority_adcs_info_attribute_name : Text
authority_adcs_info_attribute_name = codes "authority_adcs_info"

abbrev pub authority_adcs_info_attribute_uuid : Text
authority_adcs_info_attribute_uuid = codes "870b612e-fd82-446f-bb5e-e9078ca117cc"

abbrev pub authority_adcs_info_attribute_label : Text
authority_adcs_info_attribute_label = codes "ADCS Information"

abbrev pub authority_adcs_info_attribute_description : Text
authority_adcs_info_attribute_description = codes "How to use ADCS Attributes"

abbrev pub authority_winrm_transport_attribute_name : Text
authority_winrm_transport_attribute_name = codes "authority_winrm_transport"

abbrev pub authority_winrm_transport_attribute_uuid : Text
authority_winrm_transport_attribute_uuid = codes "06cf66eb-5c1e-4edf-8308-617565a5d6b4"

abbrev pub authority_winrm_transport_attribute_label : Text
authority_winrm_transport_attribute_label = codes "WinRM Transport"

abbrev pub authority_winrm_transport_attribute_description : Text
authority_winrm_transport_attribute_description =
    codes "Choose the transport type to use for communication with ADCS"

abbrev pub authority_winrm_transport_config_attribute_name : Text
authority_winrm_transport_config_attribute_name = codes "authority_winrm_transport_config"

abbrev pub authority_winrm_transport_config_attribute_uuid : Text
authority_winrm_transport_config_attribute_uuid = codes "dd12711e-2daa-4b82-b167-0c2ee5f71df6"

abbrev pub authority_winrm_transport_config_attribute_label : Text
authority_winrm_transport_config_attribute_label = codes "WinRM Transport Configuration"

abbrev pub authority_winrm_transport_config_attribute_description : Text
authority_winrm_transport_config_attribute_description =
    codes "Configure transport specific attributes"

abbrev pub authority_server_address_attribute_name : Text
authority_server_address_attribute_name = codes "authority_server_address"

abbrev pub authority_server_address_attribute_uuid : Text
authority_server_address_attribute_uuid = codes "f2ee713a-c7cf-4b27-ae91-a84606b4877a"

abbrev pub authority_server_address_attribute_label : Text
authority_server_address_attribute_label = codes "ADCS server address"

abbrev pub authority_server_address_attribute_description : Text
authority_server_address_attribute_description = codes "Server hostname where ADCS is running"

abbrev pub authority_use_https_attribute_name : Text
authority_use_https_attribute_name = codes "authority_use_https"

abbrev pub authority_use_https_attribute_uuid : Text
authority_use_https_attribute_uuid = codes "645d3690-b460-43e7-94c9-9374cf5f14b3"

abbrev pub authority_use_https_attribute_label : Text
authority_use_https_attribute_label = codes "Use HTTPS"

abbrev pub authority_use_https_attribute_description : Text
authority_use_https_attribute_description = codes "Use HTTPS to connect to ADCS"

abbrev pub authority_winrm_port_attribute_name : Text
authority_winrm_port_attribute_name = codes "authority_winrm_port"

abbrev pub authority_winrm_port_attribute_uuid : Text
authority_winrm_port_attribute_uuid = codes "079f9f93-adc0-48bd-96f1-095991295cb9"

abbrev pub authority_winrm_port_attribute_label : Text
authority_winrm_port_attribute_label = codes "WinRM Port"

abbrev pub authority_winrm_port_attribute_description : Text
authority_winrm_port_attribute_description =
    codes "WinRM port, default port for http is 5985 and for https 5986"

abbrev pub authority_ssh_port_attribute_name : Text
authority_ssh_port_attribute_name = codes "authority_ssh_port"

abbrev pub authority_ssh_port_attribute_uuid : Text
authority_ssh_port_attribute_uuid = codes "1731ad64-e986-4b0d-b1cd-48d59f33e56a"

abbrev pub authority_ssh_port_attribute_label : Text
authority_ssh_port_attribute_label = codes "SSH Port"

abbrev pub authority_ssh_port_attribute_description : Text
authority_ssh_port_attribute_description = codes "SSH port, default port is 22"

abbrev pub authority_credential_type_attribute_name : Text
authority_credential_type_attribute_name = codes "authority_credential_type"

abbrev pub authority_credential_type_attribute_uuid : Text
authority_credential_type_attribute_uuid = codes "e05beb6a-90fe-4f85-bd9f-2394d70a0a29"

abbrev pub authority_credential_type_attribute_label : Text
authority_credential_type_attribute_label = codes "Credential Type"

abbrev pub authority_credential_type_attribute_description : Text
authority_credential_type_attribute_description =
    codes
      "Choose the credential type to use for authentication, it should be compatible with selected protocol"

abbrev pub authority_credential_attribute_name : Text
authority_credential_attribute_name = codes "authority_credential"

abbrev pub authority_credential_attribute_uuid : Text
authority_credential_attribute_uuid = codes "93d77f65-d9c4-497c-bdee-f3330eb0f209"

abbrev pub authority_credential_attribute_label : Text
authority_credential_attribute_label = codes "Credential"

abbrev pub authority_credential_attribute_description : Text
authority_credential_attribute_description = codes "Credential to authenticate with ADCS"
