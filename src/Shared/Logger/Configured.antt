-- ===== src/Shared/Logger/Configured.antt =====
-- The loggers after calls of shared/logger.py.
use crypto_streaming_lakehou.Base.{
  String, List, [], ◌∷◌, ◌++◌, text_eq, if◌then◌else◌, is_empty, All, ◌≡◌, refl, ap, inl, inr,
  Bool-cases, eq_refl,
}
use crypto_streaming_lakehou.Shared.Logger.{
  Logger, info, json_handler, set_up, new_logger, get_logger,
}

-- One handler, which writes JSON in UTC, one filter, which adds the logger's own name, and level
-- INFO
pub record IsConfigured (l : Logger) : Type 0 where
  pub handled : l.handlers ≡ json_handler ∷ []
  pub filtered : l.filters ≡ l.name ∷ []
  pub level : l.level ≡ info

unfoldable pub get_each : List String → List Logger → List Logger
get_each [] loggers = loggers
get_each (service ∷ services) loggers = get_each services (get_logger service loggers)

set_up_again : (service : String) (l : Logger) → IsConfigured l → set_up service l ≡ l
unfolding set_up
set_up_again service l c =
    ap
      (λ h.
        if is_empty h
        then record l {
          level = info;
          handlers = l.handlers ++ json_handler ∷ [];
          filters = l.filters ++ service ∷ [];
        }
        else l)
      c.handled

set_up_new : (service : String) → IsConfigured (set_up service (new_logger service))
unfolding set_up
set_up_new service = record { handled = refl; filtered = refl; level = refl }

get_logger-IsConfigured :
    (service : String) (loggers : List Logger)
    → All IsConfigured loggers
    → All IsConfigured (get_logger service loggers)
unfolding get_logger
get_logger-IsConfigured service [] h = (set_up_new service, tt)
get_logger-IsConfigured service (l ∷ loggers) (c, h) = elim (Bool-cases (text_eq l.name service)) [
  | inl e ↦ rw (e, set_up_again service l c) (c, h)
  | inr e ↦ rw e (c, get_logger-IsConfigured service loggers h)
]

get_logger_again :
    (service : String) (loggers : List Logger)
    → All IsConfigured loggers
    → get_logger service (get_logger service loggers) ≡ get_logger service loggers
unfolding get_logger
get_logger_again service [] h = rw (eq_refl service) refl
get_logger_again service (l ∷ loggers) (c, h) = elim (Bool-cases (text_eq l.name service)) [
  | inl e ↦ rw (e, set_up_again service l c, e, set_up_again service l c) refl
  | inr e ↦ rw (e, e) (ap (λ r. l ∷ r) (get_logger_again service loggers h))
]

-- Starting from configured loggers, or from none, however often and for whichever services
-- get_logger is called, each logger has one handler, one filter and the level INFO, and another
-- call for a name changes nothing: no line is written twice.
pub get_each-IsConfigured :
    (services : List String) (loggers : List Logger)
    → All IsConfigured loggers
    → let after = get_each services loggers in
      All IsConfigured after
      × ((service : String)
          → get_logger service (get_logger service after) ≡ get_logger service after)
unfolding get_each
get_each-IsConfigured [] loggers h = (h, λ service. get_logger_again service loggers h)
get_each-IsConfigured (service ∷ services) loggers h =
    get_each-IsConfigured services (get_logger service loggers)
      (get_logger-IsConfigured service loggers h)
