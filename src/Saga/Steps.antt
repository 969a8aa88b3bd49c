-- ===== src/Saga/Steps.antt =====
-- saga/step.go and saga/context.go: one step, with its state, and the values that steps publish.
-- A payload of any type is a dynamic value of type `V`, and a Go type is known by its name.
use benzene_go.Prelude.{
  String, refl, ap, Bool, true, false, Option, none, some, [], eq_iff, Eq, is_some, ◌≡◌, ◌↔◌, ◌&&◌,
  ◌∷◌, if◌then◌else◌, ◌==◌, string_eq, nat_eq,
}
use benzene_go.Maps.{Map, lookup, insert}
use benzene_go.Flow.{Go, Flow, ret, panic}
use benzene_go.Status.{status_unexpected_error, is_success}
use benzene_go.Result.{
  Result, is_successful, failed, unexpected_error, errors_from_messages, fail, fail_with,
}
use Prim.Native.String

-- The two kinds of key of `SagaContext`.
pub data ItemKey : Type 0 where
  by_text by_type : String → ItemKey

unfoldable pub key_beq : ItemKey → ItemKey → Bool
key_beq (by_text a) (by_text b) = a == b
key_beq (by_type a) (by_type b) = a == b
key_beq _ _ = false

key_beq_iff : (a b : ItemKey) → (key_beq a b ≡ true) ↔ (a ≡ b)
unfolding key_beq
key_beq_iff (by_text a) (by_text b) =
    (λ h. ap by_text ((eq_iff a b).0 h), λ h. (eq_iff a b).1 (cc h))
key_beq_iff (by_text a) (by_type b) = (λ h. absurd (cc h), λ h. absurd (cc h))
key_beq_iff (by_type a) (by_text b) = (λ h. absurd (cc h), λ h. absurd (cc h))
key_beq_iff (by_type a) (by_type b) =
    (λ h. ap by_type ((eq_iff a b).0 h), λ h. (eq_iff a b).1 (cc h))

instance pub key_eq : Eq ItemKey
key_eq = record { equal = key_beq; equal_iff = key_beq_iff }

-- `keyFor`
unfoldable pub key_for : String → String → ItemKey
key_for type_name key = if key == "" then by_type type_name else by_text key

-- What a run of a saga may change beside its steps: the items of the context, and the world.
pub record Shared (V W : Type 0) : Type 0 where
  pub items : Map ItemKey V
  pub world : W

module _ {V W : Type 0} where
  -- `Set`, `Get` and `Has`; `is_type` is the type assertion on what is stored.
  unfoldable pub set_item : String → String → V → Shared V W → Shared V W
  unfolding key_for
  set_item type_name key value s = record s { items = insert (key_for type_name key) value s.items }

  unfoldable pub get_item : (V → Bool) → String → String → Shared V W → Option V
  unfolding key_for
  get_item is_type type_name key s = elim (lookup (key_for type_name key) s.items) [
    | some stored ↦ if is_type stored then some stored else none
    | none ↦ none
  ]

  unfoldable pub has_item : String → String → Shared V W → Bool
  unfolding key_for
  has_item type_name key s = is_some (lookup (key_for type_name key) s.items)

pub data StepState : Type 0 where
  pending succeeded failing rolled_back compensation_failed : StepState

abbrev pub step_state_beq : StepState → StepState → Bool
step_state_beq pending pending = true
step_state_beq succeeded succeeded = true
step_state_beq failing failing = true
step_state_beq rolled_back rolled_back = true
step_state_beq compensation_failed compensation_failed = true
step_state_beq _ _ = false

-- `step[T]`: its two actions, and what its last run left. `zero_value` is Go's zero of the type,
-- and a step that never ran is `pending`.
pub record Step (V W : Type 0) : Type 0 where
  pub type_name : String
  pub key : String
  pub zero_value : V
  pub forward : Go (Shared V W) (Result V)
  pub compensate_fn : Option (V → Go (Shared V W) (Result (Unit {0})))
  pub state : StepState
  pub result : Option (Result V)
  pub err : Option String

abbrev pub panicked : {V : Type 0} → String → Result V
panicked text = failed status_unexpected_error (errors_from_messages (text ∷ []))

-- `UnexpectedError` always returns this.
unexpected_error-panicked :
    {V : Type 0} (text : String) → unexpected_error {A = V} (text ∷ []) ≡ ret (panicked text)
unfolding unexpected_error fail fail_with is_success
unexpected_error-panicked text = refl

module _ {V W : Type 0} where
  -- `NewKeyedStep`; `NewStep` has the empty key.
  unfoldable pub new_keyed_step :
      String
      → String
      → V
      → Go (Shared V W) (Result V)
      → Option (V → Go (Shared V W) (Result (Unit {0})))
      → Step V W
  new_keyed_step type_name key zero_value forward compensate = record {
    type_name = type_name;
    key = key;
    zero_value = zero_value;
    forward = forward;
    compensate_fn = compensate;
    state = pending;
    result = none;
    err = none;
  }

  -- `payload`
  unfoldable pub payload : Step V W → V
  payload st = elim st.result [
    | none ↦ st.zero_value
    | some r ↦ elim r.payload [ none ↦ st.zero_value | some v ↦ v ]
  ]

  -- What `execute` writes into the step when its forward action has ended.
  abbrev pub executed : Flow (Result V) → Step V W → Step V W
  executed (ret r) st = record st {
    err = none;
    result = some r;
    state = if is_successful r then succeeded else failing;
  }
  executed (panic text) st =
      let message = String.◌++◌ "saga step panicked: " text in
      record st { err = some message; result = some (panicked message); state = failing }

  -- `execute`
  unfoldable pub execute : Step V W → Shared V W → Step V W × Shared V W
  execute st s = let (outcome, s') = st.forward s in (executed outcome st, s')

  -- `publish`
  unfoldable pub publish : Step V W → Shared V W → Shared V W
  unfolding payload set_item
  publish st s =
      if step_state_beq st.state succeeded && is_some st.result
      then set_item st.type_name st.key (payload st) s
      else s

  abbrev pub compensated : Flow (Result (Unit {0})) → Step V W → Bool × Step V W
  compensated (ret r) st =
      if is_successful r
      then (true, record st { state = rolled_back })
      else (false, record st { state = compensation_failed })
  compensated (panic text) st = (
    false,
    record st {
      err = some (String.◌++◌ "saga compensation panicked: " text);
      state = compensation_failed;
    },
  )

  unfoldable pub undo :
      Option (V → Go (Shared V W) (Result (Unit {0})))
      → Step V W
      → Shared V W
      → (Bool × Step V W) × Shared V W
  unfolding payload
  undo none st s = ((true, record st { state = rolled_back }), s)
  undo (some fn) st s = let (outcome, s') = fn (payload st) s in (compensated outcome st, s')

  -- `compensate`
  unfoldable pub compensate : Step V W → Shared V W → (Bool × Step V W) × Shared V W
  unfolding undo
  compensate st s =
      let undone = undo st.compensate_fn st s in
      if step_state_beq st.state succeeded then undone else ((true, st), s)
