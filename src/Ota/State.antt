-- ===== src/Ota/State.antt =====
-- bmt_ai_os/ota/state.py: the state of the two boot slots and the JSON file that holds it. A write of
-- the file succeeds as a whole; JSON numbers are natural numbers.
pub mod Files
pub mod Boots
use bmt_ai_os.Prelude.{
  ℕ, ◌+◌, String, Bool, true, false, not, Option, none, some, [], ◌∷◌, str_eq, ◌==◌, leb,
  if◌then◌else◌, Result, ok, err, ◌>>=◌,
}
use bmt_ai_os.Prelude.Dict
use bmt_ai_os.Prelude.Dict.{Dict}

-- A JSON value; `other` is an array, an object or a number that is not natural.
pub data Json : Type 0 where
  null other : Json
  boolean : Bool → Json
  number : ℕ → Json
  text : String → Json

pub record OtaState : Type 0 where
  pub current_slot : String
  pub standby_slot : String
  pub last_update : Json
  pub bootcount : ℕ
  pub confirmed : Bool

abbrev pub factory : OtaState
factory = record {
  current_slot = "a";
  standby_slot = "b";
  last_update = null;
  bootcount = 0;
  confirmed = true;
}

-- The file: absent, unreadable (`OSError`), not JSON, JSON that is no object, or an object.
pub data StateFile : Type 0 where
  missing unreadable malformed not_object : StateFile
  object : Dict Json → StateFile

-- What `load` lets through: `list.get` and the like, a failing `int(text)`, `int(None)`.
pub data LoadError : Type 0 where
  attribute_error value_error type_error : LoadError

unfoldable pub to_dict : OtaState → Dict Json
to_dict s =
    ("current_slot", text s.current_slot)
    ∷ ("standby_slot", text s.standby_slot)
    ∷ ("last_update", s.last_update)
    ∷ ("bootcount", number s.bootcount)
    ∷ ("confirmed", boolean s.confirmed)
    ∷ []

-- `data.get(key, default)`
get_or : Dict Json → String → Json → Json
get_or d key default = elim (Dict.get d key) [ none ↦ default | some v ↦ v ]

-- `bool(v)`; an `other` is taken as true.
truth : Json → Bool
truth null = false
truth other = true
truth (boolean b) = b
truth (number n) = not (n == 0)
truth (text s) = not (str_eq s "")

-- Python's `str` of a value that is no text, and `int` of a text, where it is a natural number.
module _ (str_of : Json → String) (int_of : String → Option ℕ) where
  -- `str(v)`
  to_str : Json → String
  to_str (text s) = s
  to_str v = str_of v

  -- `int(v)`
  to_int : Json → Result LoadError ℕ
  to_int (number n) = ok n
  to_int (boolean b) = ok (if b then 1 else 0)
  to_int (text s) = elim (int_of s) [ none ↦ err value_error | some n ↦ ok n ]
  to_int null = err type_error
  to_int other = err type_error

  unfoldable pub from_dict : Dict Json → Result LoadError OtaState
  unfolding to_str to_int get_or truth
  from_dict d = do
    bootcount ← to_int (get_or d "bootcount" (number 0))
    ok (record {
      current_slot = to_str (get_or d "current_slot" (text "a"));
      standby_slot = to_str (get_or d "standby_slot" (text "b"));
      last_update = get_or d "last_update" null;
      bootcount = bootcount;
      confirmed = truth (get_or d "confirmed" (boolean true));
    })

  unfoldable pub load : StateFile → Result LoadError OtaState
  load missing = ok factory
  load unreadable = ok factory
  load malformed = ok factory
  load not_object = err attribute_error
  load (object d) = from_dict d

  unfoldable pub save : OtaState → StateFile
  save s = object (to_dict s)

  -- A method that loads the state, changes it and saves it; it returns the new state.
  unfoldable pub update :
      (OtaState → OtaState) → StateFile → Result LoadError (StateFile × OtaState)
  update change file = do s ← load file; let s' = change s; ok (save s', s')

abbrev pub bumped : OtaState → OtaState
bumped s = record s { bootcount = s.bootcount + 1; confirmed = false }

abbrev pub marked_good : OtaState → OtaState
marked_good s = record s { bootcount = 0; confirmed = true }

abbrev pub switched : String → OtaState → OtaState
switched now s = record s {
  current_slot = s.standby_slot;
  standby_slot = s.current_slot;
  confirmed = false;
  bootcount = 0;
  last_update = text now;
}

abbrev pub stamped : Option String → String → OtaState → OtaState
stamped ts now s = record s {
  last_update = elim ts [ none ↦ text now | some t ↦ if str_eq t "" then text now else text t ];
}

-- The swap that `rollback_update` makes: like `switch_slots`, without the time stamp.
abbrev pub rolled_back : OtaState → OtaState
rolled_back s = record s {
  current_slot = s.standby_slot;
  standby_slot = s.current_slot;
  confirmed = false;
  bootcount = 0;
}

-- The methods of `StateManager` that change the file.
module _ (str_of : Json → String) (int_of : String → Option ℕ) where
  unfoldable pub increment_bootcount : StateFile → Result LoadError (StateFile × OtaState)
  increment_bootcount = update str_of int_of bumped

  unfoldable pub confirm : StateFile → Result LoadError (StateFile × OtaState)
  confirm = update str_of int_of marked_good

  unfoldable pub switch_slots : String → StateFile → Result LoadError (StateFile × OtaState)
  switch_slots now = update str_of int_of (switched now)

  unfoldable pub set_last_update :
      Option String → String → StateFile → Result LoadError (StateFile × OtaState)
  set_last_update ts now = update str_of int_of (stamped ts now)
