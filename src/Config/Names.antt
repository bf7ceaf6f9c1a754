-- ===== src/Config/Names.antt =====
-- config/config.go: the names of the kinds of stores and properties that process.go asks for.
use blank_sr.Base.{String}

abbrev pub obj_directory : String
obj_directory = "directory"

abbrev pub obj_process : String
obj_process = "process"

abbrev pub obj_map : String
obj_map = "map"

abbrev pub obj_workspace : String
obj_workspace = "workspace"

abbrev pub obj_campaign : String
obj_campaign = "campaign"

abbrev pub obj_notification : String
obj_notification = "notification"

abbrev pub obj_single : String
obj_single = "single"

abbrev pub obj_file : String
obj_file = "file"

abbrev pub obj_proxy : String
obj_proxy = "proxy"

abbrev pub default_directory : String
default_directory = "_default"

abbrev pub default_process : String
default_process = "_defaultProcess"

abbrev pub default_campaign : String
default_campaign = "_defaultCampaign"

abbrev pub default_notification : String
default_notification = "_defaultNotifications"

abbrev pub default_single : String
default_single = "_defaultSingle"

abbrev pub obj_server_settings : String
obj_server_settings = "_serverSettings"

abbrev pub obj_common_settings : String
obj_common_settings = "_commonSettings"

abbrev pub prop_int : String
prop_int = "int"

abbrev pub prop_float : String
prop_float = "float"

abbrev pub prop_bool : String
prop_bool = "bool"

abbrev pub prop_string : String
prop_string = "string"

abbrev pub prop_date : String
prop_date = "date"

abbrev pub prop_date_only : String
prop_date_only = "dateOnly"

abbrev pub prop_ref : String
prop_ref = "ref"

abbrev pub prop_ref_list : String
prop_ref_list = "refList"

abbrev pub prop_virtual : String
prop_virtual = "virtual"

abbrev pub prop_virtual_client : String
prop_virtual_client = "virtual/client"

abbrev pub prop_password : String
prop_password = "password"

abbrev pub prop_object : String
prop_object = "object"

abbrev pub prop_object_list : String
prop_object_list = "objectList"

abbrev pub prop_virtual_ref_list : String
prop_virtual_ref_list = "virtualRefList"

abbrev pub prop_comments : String
prop_comments = "comments"

abbrev pub prop_any : String
prop_any = "any"

abbrev pub prop_action : String
prop_action = "action"

abbrev pub prop_widget : String
prop_widget = "widget"

abbrev pub prop_file : String
prop_file = "file"

abbrev pub prop_file_list : String
prop_file_list = "fileList"

abbrev pub prop_uuid : String
prop_uuid = "uuid"
