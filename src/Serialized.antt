-- ===== src/Serialized.antt =====
-- serialized.py: Python values, their encoding as JSON, and DAGs and tasks among them. The values
-- and what the encoding takes from Python are here; Serialized/Encode has `serialize`,
-- Serialized/Decode has `deserialize`, Serialized/Objects reads tasks and DAGs.
pub mod Encode
pub mod Decode
pub mod Objects
pub mod Plain
pub mod RoundTrip
pub mod Restored
pub mod Dags
pub mod Spec
use yt_scheduler.Base.{
  ℕ, String, Bool, true, false, ◌&&◌, Option, none, some, List, ◌==◌, if◌then◌else◌,
}
use yt_scheduler.Base.Action.{Result}

-- `negsuc n` is -(n + 1).
pub data ℤ : Type 0 where
  pos : ℕ → ℤ
  negsuc : ℕ → ℤ

-- Types of Python that the encoding hands on, with the conversions that it uses: `math.isnan` and
-- `math.isinf`, `str` of a float, `datetime.timestamp`, `datetime.fromisoformat`,
-- `timedelta.total_seconds`, and `timedelta(seconds=…)` of a float and of an integer. `Other` is
-- every type that the encoding does not know.
pub record Library : Type 1 where
  pub Float : Type 0
  pub Datetime : Type 0
  pub Timedelta : Type 0
  pub Other : Type 0
  pub is_finite : Float → Bool
  pub float_text : Float → String
  pub timestamp : Datetime → Float
  pub fromisoformat : String → Result Datetime
  pub total_seconds : Timedelta → Float
  pub seconds : Float → Result Timedelta
  pub int_seconds : ℤ → Result Timedelta
  pub other_text : Other → String

-- A member of an enumeration is known by its value, a text; those of `AttrTypes` and `Encoding` are
-- equal to their texts and are written as such. A set holds its members in the order of iteration.
mutual
  pub data Value (l : Library) : Type 0 where
    null : Value l
    boolean : Bool → Value l
    int : ℤ → Value l
    float : l.Float → Value l
    text : String → Value l
    enum : String → Value l
    datetime : l.Datetime → Value l
    timedelta : l.Timedelta → Value l
    dict : Entries l → Value l
    list : Items l → Value l
    set : Items l → Value l
    tuple : Items l → Value l
    task : Operator l → Value l
    dag : DagObject l → Value l
    other : l.Other → Value l

  pub data Items (l : Library) : Type 0 where
    nil : Items l
    cons : Value l → Items l → Items l

  -- A dictionary, in the order of insertion: its keys and values.
  pub data Entries (l : Library) : Type 0 where
    end : Entries l
    entry : Value l → Value l → Entries l → Entries l

  -- An object of `SpecBuilder`, by its operation type and `_user_spec`, or an attribute that is
  -- not set.
  pub data Builder (l : Library) : Type 0 where
    unset : Builder l
    builder : String → Value l → Builder l

  -- The attributes `task_id`, `dag_id`, `spec_builder`, `preceding_task_ids` and
  -- `succeeding_task_ids` of a task; one that is not set reads as `None`.
  pub data Operator (l : Library) : Type 0 where
    operator : Value l → Value l → Builder l → Value l → Value l → Operator l

  -- `dag_id`, `work_dir` and `task_dict` of a DAG.
  pub data DagObject (l : Library) : Type 0 where
    dag_object : Value l → Value l → TaskDict l → DagObject l

  pub data TaskDict (l : Library) : Type 0 where
    no_dict : TaskDict l
    no_tasks : TaskDict l
    task_entry : Value l → Operator l → TaskDict l → TaskDict l

-- What is taken from Python on all values: `str` of a value that is not a text, `==` between values
-- that can be hashed, and `sorted`, which raises `TypeError` where two values have no order. Of the
-- package `yt`: whether a subclass of `SpecBuilder` has the operation type, and the `_user_spec` of
-- its object after `spec(spec)`.
pub record Runtime (l : Library) : Type 0 where
  pub str_of : Value l → String
  pub same : Value l → Value l → Bool
  pub sorted : Items l → Result (Items l)
  pub knows : String → Bool
  pub with_spec : String → Value l → Value l

module _ {l : Library} where
  -- key == k
  abbrev pub is_text : String → Value l → Bool
  is_text k (text j) = j == k
  is_text k (enum j) = j == k
  is_text k null = false
  is_text k (boolean b) = false
  is_text k (int n) = false
  is_text k (float x) = false
  is_text k (datetime d) = false
  is_text k (timedelta d) = false
  is_text k (dict es) = false
  is_text k (list xs) = false
  is_text k (set xs) = false
  is_text k (tuple xs) = false
  is_text k (task o) = false
  is_text k (dag d) = false
  is_text k (other o) = false

  -- d.get(k), None being told from a missing key
  abbrev pub find : String → Entries l → Option (Value l)
  find k end = none
  find k (entry j v es) = if is_text k j then some v else find k es

  -- {k: v, …}: a key that comes again later keeps its place and takes the later value.
  abbrev pub without : String → Entries l → Entries l
  without k end = end
  without k (entry j v es) = let rest = without k es in if is_text k j then rest else entry j v rest

  abbrev pub put_first : String → Value l → Entries l → Entries l
  put_first k v es = elim (find k es) [
    | none ↦ entry (text k) v es
    | some later ↦ entry (text k) later (without k es)
  ]

  -- `_encode`
  abbrev pub encode : Value l → String → Value l
  encode x kind = dict (entry (text "__var") x (entry (text "__type") (text kind) end))
