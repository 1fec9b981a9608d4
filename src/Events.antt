-- ===== src/Events.antt =====
-- src/security/security-event.service.ts: the events that the handlers report.
pub mod Forward
pub mod Sent
use kisauth.Base.{String, Option, List}

pub data EventType : Type 0 where
  oauth_callback_succeeded oauth_callback_failed oauth_identity_not_linked : EventType
  oauth_cancelled exchange_succeeded exchange_failed : EventType
  link_succeeded link_failed link_already_linked : EventType
  registration_ticket_issued registration_already_registered : EventType
  registration_exchange_succeeded registration_exchange_failed : EventType
  oauth_enterprise_config_failed : EventType

pub data EventOutcome : Type 0 where
  success failure : EventOutcome

-- The values of the metadata that the handlers give are texts or null.
pub record SecurityEvent : Type 0 where
  pub event_type : EventType
  pub outcome : EventOutcome
  pub kis_user_id : Option String
  pub client_id : Option String
  pub reason : Option String
  pub ip : Option String
  pub metadata : List (String × Option String)
