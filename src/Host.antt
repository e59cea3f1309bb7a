-- ===== src/Host.antt =====
-- What the scripts and the off-chain crates take from ckb-std, ckb-types and ckb-hash: the types of
-- transactions, the syscalls and the digest. The operations are fields of a record, a parameter
-- of every model that calls them; `IsRunOn` states what the syscalls are documented to answer in a
-- transaction.
use ckb_controller.Base.{ℕ, ◌≡◌, Option, none, some, List, [], Result, ok, err, get_elem?}
use ckb_controller.Bytes.{Bytes}
use mathlib.Core.Option

-- The errors of a syscall; the last stands for those of spawning.
pub data SysError : Type 0 where
  index_out_of_bound item_missing encoding spawn_related : SysError
  length_not_enough unknown : ℕ → SysError

pub data Source : Type 0 where
  input output group_input group_output header_dep : Source

pub data ScriptHashType : Type 0 where
  data1 : ScriptHashType

pub record Script : Type 0 where
  pub code_hash : Bytes
  pub hash_type : Bytes
  pub args : Bytes

pub record WitnessArgs : Type 0 where
  pub lock : Option Bytes
  pub input_type : Option Bytes
  pub output_type : Option Bytes

pub record OutPoint : Type 0 where
  pub tx_hash : Bytes
  pub index : ℕ

pub record CellDep : Type 0 where
  pub out_point : OutPoint
  pub dep_type : ℕ

pub record CellInput : Type 0 where
  pub previous_output : OutPoint
  pub since : ℕ

pub record CellOutput : Type 0 where
  pub capacity : ℕ
  pub lock : Script
  pub type_script : Option Script

pub record RawTransaction : Type 0 where
  pub version : ℕ
  pub cell_deps : List CellDep
  pub header_deps : List Bytes
  pub inputs : List CellInput
  pub outputs : List CellOutput
  pub outputs_data : List Bytes

pub record Transaction : Type 0 where
  pub raw : RawTransaction
  pub witnesses : List Bytes

pub record Host : Type 0 where
  pub blake2b_256 : Bytes → Bytes
  pub calc_script_hash : Script → Bytes
  -- the molecule encoding of a raw transaction
  pub raw_as_slice : RawTransaction → Bytes
  -- `hex::encode`
  pub hex_encode : Bytes → Bytes
  -- of the ckb-auth binary, computed by the build
  pub auth_code_hash : Bytes
  pub spawn_cell : Bytes → ScriptHashType → List Bytes → Result SysError ℕ
  pub wait : ℕ → Result SysError ℕ
  pub load_script : Result SysError Script
  pub load_script_hash : Result SysError Bytes
  pub load_transaction : Result SysError Transaction
  pub load_input_since : ℕ → Source → Result SysError ℕ
  pub load_witness_args : ℕ → Source → Result SysError WitnessArgs
  pub load_cell_lock : ℕ → Source → Result SysError Script
  pub load_cell_type : ℕ → Source → Result SysError (Option Script)
  pub load_cell_type_hash : ℕ → Source → Result SysError (Option Bytes)
  pub load_cell_data : ℕ → Source → Result SysError Bytes
  pub load_cell_capacity : ℕ → Source → Result SysError ℕ
  -- the timestamp of the header
  pub load_header : ℕ → Source → Result SysError ℕ

-- A cell as the syscalls show it.
pub record Cell : Type 0 where
  pub capacity : ℕ
  pub lock : Script
  pub type_script : Option Script
  pub content : Bytes

-- The transaction that a script runs in, with the cells that its inputs resolve to.
pub record Context : Type 0 where
  pub script : Script
  pub transaction : Transaction
  pub inputs : List Cell
  pub outputs : List Cell
  pub group_inputs : List Cell
  pub group_outputs : List Cell
  -- by input, and by input of the group
  pub witnesses : List WitnessArgs
  pub group_witnesses : List WitnessArgs
  pub group_since : List ℕ
  pub header_times : List ℕ

-- A read at an index: past the end it answers `IndexOutOfBound`.
abbrev pub read {ℓ} : {A : Type ℓ} → Option A → Result SysError A
read none = err index_out_of_bound
read (some a) = ok a

abbrev pub read_at {ℓ κ} : {A : Type ℓ} {B : Type κ} → List A → ℕ → (A → B) → Result SysError B
read_at cells i view = read (Option.map view (get_elem? cells i))

abbrev pub cells_at : Context → Source → List Cell
cells_at tx input = tx.inputs
cells_at tx output = tx.outputs
cells_at tx group_input = tx.group_inputs
cells_at tx group_output = tx.group_outputs
cells_at tx header_dep = []

-- The syscalls answer from the transaction.
pub record IsRunOn (tx : Context) (host : Host) : Type 0 where
  pub script_is : host.load_script ≡ ok tx.script
  pub script_hash_is : host.load_script_hash ≡ ok (host.calc_script_hash tx.script)
  pub transaction_is : host.load_transaction ≡ ok tx.transaction
  pub since_is : (i : ℕ) → host.load_input_since i group_input ≡ read_at tx.group_since i (λ s. s)
  pub witness_is : (i : ℕ) → host.load_witness_args i input ≡ read_at tx.witnesses i (λ w. w)
  pub group_witness_is :
      (i : ℕ) → host.load_witness_args i group_input ≡ read_at tx.group_witnesses i (λ w. w)
  pub lock_is :
      (i : ℕ) (s : Source) → host.load_cell_lock i s ≡ read_at (cells_at tx s) i (λ c. c.lock)
  pub type_is :
      (i : ℕ) (s : Source)
      → host.load_cell_type i s ≡ read_at (cells_at tx s) i (λ c. c.type_script)
  pub type_hash_is :
      (i : ℕ) (s : Source)
      → host.load_cell_type_hash i s
        ≡ read_at (cells_at tx s) i (λ c. Option.map host.calc_script_hash c.type_script)
  pub data_is :
      (i : ℕ) (s : Source) → host.load_cell_data i s ≡ read_at (cells_at tx s) i (λ c. c.content)
  pub capacity_is :
      (i : ℕ) (s : Source)
      → host.load_cell_capacity i s ≡ read_at (cells_at tx s) i (λ c. c.capacity)
  pub header_is : (i : ℕ) → host.load_header i header_dep ≡ read_at tx.header_times i (λ t. t)
