-- ===== src/Provider.antt =====
-- internal/provider/provider.go: what goes to a provider and comes back, and the price of a
-- request.
pub mod Cost
pub mod Resilient
use kenbun.Prelude.{String, Bool, List, ℤ, ◌==◌, if◌then◌else◌}
use kenbun.Float.{Float}

pub record Message : Type 0 where
  pub role : String
  pub content : String

pub record ChatRequest : Type 0 where
  pub model : String
  pub messages : List Message
  pub stream : Bool

pub record ChatResponse : Type 0 where
  pub content : String
  pub model : String
  pub provider : String
  pub prompt_tokens : ℤ
  pub completion_tokens : ℤ

pub record ChatChunk : Type 0 where
  pub content : String
  pub finish_reason : String
  pub prompt_tokens : ℤ
  pub completion_tokens : ℤ

-- A result of a call that may fail, with an error of the caller's type.
pub data Outcome (X A : Type 0) : Type 0 where
  ok : A → Outcome X A
  err : X → Outcome X A

module _ {F : Type 0} ⦃d : Float F⦄ where
  open d use {ratio, add, mul, div, of_int}

  -- cents for a thousand tokens of the prompt and of the completion
  unfoldable pub rates : String → F × F
  rates model =
      if model == "gpt-4o"
      then (ratio 1 2, ratio 3 2)
      else if model == "claude-3-sonnet"
      then (ratio 3 10, ratio 3 2)
      else (ratio 1 10, ratio 1 5)

  unfoldable pub estimate_cost : String → ℤ → ℤ → F
  unfolding rates
  estimate_cost model prompt_tokens completion_tokens =
      let (prompt_rate, completion_rate) = rates model in
      add (div (mul (of_int prompt_tokens) prompt_rate) (ratio 1000 1))
        (div (mul (of_int completion_tokens) completion_rate) (ratio 1000 1))
