-- ===== src/Shared/Logger.antt =====
-- shared/logger.py
pub mod Configured
use crypto_streaming_lakehou.Base.{
  String, Bool, true, false, List, [], ◌∷◌, ◌++◌, text_eq, if◌then◌else◌, is_empty,
}

-- A StreamHandler with its JsonFormatter
pub record Handler : Type 0 where
  pub format : String
  pub rename_fields : List (String × String)
  pub datefmt : String
  pub is_utc : Bool

pub data Level : Type 0 where
  notset info : Level

-- A logger of the logging library; a filter is named by its service.
pub record Logger : Type 0 where
  pub name : String
  pub level : Level
  pub handlers : List Handler
  pub filters : List String

-- A log record, as far as the filter changes it
pub record LogRecord : Type 0 where
  pub message : String
  pub service : String

-- _ServiceFilter.filter
unfoldable pub filter_record : String → LogRecord → Bool × LogRecord
filter_record service r = (true, record r { service = service })

abbrev pub json_handler : Handler
json_handler = record {
  format = "%(asctime)s %(levelname)s %(name)s %(message)s %(service)s";
  rename_fields = ("asctime", "timestamp") ∷ ("levelname", "level") ∷ ("name", "logger") ∷ [];
  datefmt = "%Y-%m-%dT%H:%M:%SZ";
  is_utc = true;
}

-- The rest of get_logger, on the logger that it has got
unfoldable pub set_up : String → Logger → Logger
set_up service l =
    if is_empty l.handlers
    then record l {
      level = info;
      handlers = l.handlers ++ json_handler ∷ [];
      filters = l.filters ++ service ∷ [];
    }
    else l

-- What logging.getLogger makes of a new name
abbrev pub new_logger : String → Logger
new_logger service = record { name = service; level = notset; handlers = []; filters = [] }

-- The loggers of the process after a call; logging.getLogger returns one object for one name.
unfoldable pub get_logger : String → List Logger → List Logger
unfolding set_up
get_logger service [] = set_up service (new_logger service) ∷ []
get_logger service (l ∷ loggers) =
    let rest = get_logger service loggers in
    if text_eq l.name service then set_up service l ∷ loggers else l ∷ rest
