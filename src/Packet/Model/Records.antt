-- ===== src/Packet/Model/Records.antt =====
-- The rows, commands and changes of internal/packetissuance/model.go.
use chrono_desk.Prelude.{Bool, List, Option, String, [], none}

-- A statement of the values of `registration.status`.
pub data Status : Type 0 where
  registered dns dnf dsq : Status
  other_status : String → Status

pub record Person : Type 0 where
  pub id : String
  pub first_name : String
  pub last_name : String
  pub birth_date : String
  pub gender : String
  pub team : String
  pub city : String

pub record Registration : Type 0 where
  pub id : String
  pub event_id : String
  pub race_id : String
  pub bib : String
  pub epc : String
  pub person : Option Person
  pub reserve : Bool
  pub issued : Bool
  pub status : Status
  pub transferred_to : Option String
  pub has_timing_evidence : Bool

pub data CommandType : Type 0 where
  assign_number create_registration return_to_reserve clear_number unassign_number : CommandType
  issue undo_issue set_dns release_to_reserve edit_person change_race replace_person : CommandType
  move_race move_to_reserve assign_reserve correct_move resolve_conflict : CommandType
  other_type : String → CommandType

pub record Command : Type 0 where
  pub type : CommandType
  pub registration_id : String
  pub bib : String
  pub event_id : String
  pub race_id : String
  pub reason : String
  pub value : Option Bool
  pub fields : List (String × String)
  pub person : Option Person
  pub return_source : Option Bool
  pub issue_packet : Option Bool
  pub target_id : String
  pub operation_id : String
  pub inputs : List String
  pub keep : List String

pub record Change : Type 0 where
  pub registration_id : String
  pub before : Registration
  pub after : Registration

-- The zero value of `Command`.
abbrev pub no_command : Command
no_command = record {
  type = other_type "";
  registration_id = "";
  bib = "";
  event_id = "";
  race_id = "";
  reason = "";
  value = none;
  fields = [];
  person = none;
  return_source = none;
  issue_packet = none;
  target_id = "";
  operation_id = "";
  inputs = [];
  keep = [];
}
