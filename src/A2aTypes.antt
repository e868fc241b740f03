-- ===== src/A2aTypes.antt =====
-- typescript-sdk/src/a2a/types.ts: the types of the A2A task protocol, over JSON values.
use self_agent_id.Base.{ℕ, Bool, Option, List, Text}
use self_agent_id.Base.Int.{ℤ, negsuc}

-- A JSON value; each number is an integer, and each field of an object stands once.
mutual
  pub data Json : Type 0 where
    null : Json
    boolean : Bool → Json
    number : ℤ → Json
    string : Text → Json
    array : Items → Json
    object : Fields → Json

  pub data Items : Type 0 where
    end : Items
    item : Json → Items → Items

  pub data Fields : Type 0 where
    no_more : Fields
    field : Text → Json → Fields → Fields

pub data Part : Type 0 where
  text_part : Text → Option Fields → Part
  file_part : (name mime_type bytes uri : Option Text) → Option Fields → Part
  data_part : Fields → Option Fields → Part

pub data Role : Type 0 where
  user agent : Role

pub record Message : Type 0 where
  pub role : Role
  pub parts : List Part
  pub metadata : Option Fields

pub data TaskState : Type 0 where
  submitted working input_required completed canceled failed unknown : TaskState

pub record TaskStatus : Type 0 where
  pub state : TaskState
  pub message : Option Message
  pub timestamp : Option Text

pub record Artifact : Type 0 where
  pub name : Option Text
  pub description : Option Text
  pub parts : List Part
  pub index : ℕ
  pub append : Option Bool
  pub last_chunk : Option Bool
  pub metadata : Option Fields

pub record Task : Type 0 where
  pub id : Text
  pub session_id : Option Text
  pub status : TaskStatus
  pub artifacts : Option (List Artifact)
  pub history : Option (List Message)
  pub metadata : Option Fields

-- The `id` of a request.
pub data RequestId : Type 0 where
  text_id : Text → RequestId
  number_id : ℤ → RequestId

pub data A2aErrorCode : Type 0 where
  parse_error invalid_request method_not_found invalid_params internal_error : A2aErrorCode
  task_not_found task_not_cancelable push_notifications_not_supported : A2aErrorCode
  unsupported_operation content_type_not_supported invalid_agent_card : A2aErrorCode

unfoldable pub error_code : A2aErrorCode → ℤ
error_code parse_error = negsuc 32699
error_code invalid_request = negsuc 32599
error_code method_not_found = negsuc 32600
error_code invalid_params = negsuc 32601
error_code internal_error = negsuc 32602
error_code task_not_found = negsuc 32000
error_code task_not_cancelable = negsuc 32001
error_code push_notifications_not_supported = negsuc 32002
error_code unsupported_operation = negsuc 32003
error_code content_type_not_supported = negsuc 32004
error_code invalid_agent_card = negsuc 32005

pub record JsonRpcError : Type 0 where
  pub code : ℤ
  pub message : Text

pub record JsonRpcResponse : Type 0 where
  pub id : RequestId
  pub result : Option Task
  pub error : Option JsonRpcError
