-- ===== src/Bench/Oracle.antt =====
-- `Ledger`, the oracle of operations and its quarantine.
use hermes_keel.Base.{
  String, Bool, true, false, not, ◌&&◌, ◌||◌, Option, none, some, List, [], ◌∷◌, ◌++◌, str_eq,
  contains_text, if◌then◌else◌,
}

pub record Operation : Type 0 where
  pub op : String
  pub task : String
  pub nonce : Option String
  pub target : Option String

pub record Rejection : Type 0 where
  pub operation : String
  pub task_id : String
  pub nonce : Option String
  pub reason : String

abbrev pub Key : Type 0
Key = String × String × String

pub record Oracle : Type 0 where
  pub tasks : List String
  pub used : List Key
  pub quarantine : List Rejection

abbrev pub fresh_oracle : List Rejection → Oracle
fresh_oracle quarantine = record { tasks = "t_bench" ∷ []; used = []; quarantine = quarantine }

abbrev pub key_eq : Key → Key → Bool
key_eq (a, b, c) (x, y, z) = str_eq a x && str_eq b y && str_eq c z

abbrev pub key_in : Key → List Key → Bool
key_in k [] = false
key_in k (j ∷ js) = key_eq k j || key_in k js

abbrev or_empty : Option String → String
or_empty none = ""
or_empty (some s) = s

abbrev pub is_in : Option String → List String → Bool
is_in none names = false
is_in (some s) names = contains_text s names

abbrev pub key_of : Operation → Key
key_of o = (o.op, o.task, or_empty o.nonce)

-- the reasons that do not depend on what was used
unfoldable pub static_reason : List String → Operation → Option String
static_reason tasks o =
    if str_eq o.task "" || not (contains_text o.task tasks)
    then some "noncanonical-task"
    else if str_eq o.op "direct_event"
    then some "direct-artifact-event-forbidden"
    else if str_eq o.op "link" && not (is_in o.target tasks)
    then some "unauthorized-link"
    else if contains_text o.op ("artifact" ∷ "complete" ∷ "request" ∷ [])
        && str_eq (or_empty o.nonce) ""
    then some "missing-task-bound-nonce"
    else none

unfoldable pub reject_reason : Oracle → Operation → Option String
unfolding static_reason
reject_reason l o = elim (static_reason l.tasks o) [
  | some reason ↦ some reason
  | none ↦ if key_in (key_of o) l.used then some "replay" else none
]

abbrev pub settle : Oracle → Operation → Option String → Bool × Oracle
settle l o none = (true, record l { used = key_of o ∷ l.used })
settle l o (some reason) = (
  false,
  record l {
    quarantine =
        l.quarantine
        ++ record { operation = o.op; task_id = o.task; nonce = o.nonce; reason = reason } ∷ [];
  },
)

-- `apply`
unfoldable pub apply : Oracle → Operation → Bool × Oracle
unfolding reject_reason
apply l o = settle l o (reject_reason l o)

-- one call after the other, as the sequence cases of the benchmark make them
unfoldable pub apply_all : Oracle → List Operation → List Bool × Oracle
unfolding apply
apply_all l [] = ([], l)
apply_all l (o ∷ os) =
    let (accepted, l1) = apply l o in let (rest, l2) = apply_all l1 os in (accepted ∷ rest, l2)
