-- ===== src/Domain/Command.antt =====
-- The launcher's unit of search results (crates/launcher-domain/src/lib.rs). The score is an
-- `f32` and the actions are handed through by the code here, so both types are parameters.
use aura_launcher.Common.{String, List, Option}

pub data Category : Type 0 where
  application file folder command plugin : Category

pub record Command (Score Action : Type 0) : Type 0 where
  pub id : String
  pub title : String
  pub subtitle : Option String
  pub icon : Option String
  pub provider_id : String
  pub score : Score
  pub keywords : List String
  pub category : Category
  pub actions : List Action
  pub target : Option String
