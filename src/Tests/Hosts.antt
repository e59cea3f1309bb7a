-- ===== src/Tests/Hosts.antt =====
-- A host that answers from a transaction, with stand-ins for the digest and for ckb-auth: it accepts
-- every signature but those that start with 0xff.
use ckb_controller.Base.{
  ℕ, zero, suc, length, drop, arith, ◌≡◌, ◌∙◌, length-take, length-append, take-append, drop-append,
  append-nil, ◌==◌, if◌then◌else◌, Option, none, some, List, [], ◌∷◌, ◌++◌, take, replicate, Result,
  ok, err, refl,
}
use ckb_controller.Bytes.{Bytes}
use ckb_controller.Host.{
  SysError, Source, input, group_input, Script, Host, Context, IsRunOn, read_at, cells_at,
  ScriptHashType, WitnessArgs,
}
use ckb_controller.Sdk.Merkle.Sizes.{IsHash}
use mathlib.Core.Option as Opt

-- The first 32 bytes.
abbrev pub digest : Bytes → Bytes
digest b = take 32 (b ++ replicate 32 0)

abbrev pub script_hash : Script → Bytes
script_hash s = digest (s.code_hash ++ (s.hash_type ++ s.args))

abbrev pub exit_code : Bytes → ℕ
exit_code [] = 1
exit_code (b ∷ sig) = if b == 0xff then 1 else 0

abbrev pub spawn : Bytes → ScriptHashType → List Bytes → Result SysError ℕ
spawn code hash_type (algorithm ∷ sig ∷ rest) = ok (exit_code sig)
spawn code hash_type args = ok 1

abbrev pub only_group : {A : Type 0} → Source → Result SysError A → Result SysError A
only_group group_input r = r
only_group source r = err (SysError.unknown 1)

abbrev pub only_input :
    {A : Type 0} → Source → Result SysError A → Result SysError A → Result SysError A
only_input input r q = r
only_input group_input r q = q
only_input source r q = err (SysError.unknown 1)

abbrev pub host_of : Context → Host
host_of tx = record {
  blake2b_256 = digest;
  calc_script_hash = script_hash;
  raw_as_slice = λ raw. raw.version ∷ [];
  hex_encode = λ b. b;
  auth_code_hash = replicate 32 9;
  spawn_cell = spawn;
  wait = λ pid. ok pid;
  load_script = ok tx.script;
  load_script_hash = ok (script_hash tx.script);
  load_transaction = ok tx.transaction;
  load_input_since = λ i s. only_group s (read_at tx.group_since i (λ n. n));
  load_witness_args =
      λ i s. only_input s (read_at tx.witnesses i (λ w. w)) (read_at tx.group_witnesses i (λ w. w));
  load_cell_lock = λ i s. read_at (cells_at tx s) i (λ c. c.lock);
  load_cell_type = λ i s. read_at (cells_at tx s) i (λ c. c.type_script);
  load_cell_type_hash = λ i s. read_at (cells_at tx s) i (λ c. Opt.map script_hash c.type_script);
  load_cell_data = λ i s. read_at (cells_at tx s) i (λ c. c.content);
  load_cell_capacity = λ i s. read_at (cells_at tx s) i (λ c. c.capacity);
  load_header = λ i s. read_at tx.header_times i (λ t. t);
}

pub host_of-IsRunOn : (tx : Context) → IsRunOn tx (host_of tx)
host_of-IsRunOn tx = record {
  script_is = refl;
  script_hash_is = refl;
  transaction_is = refl;
  since_is = λ i. refl;
  witness_is = λ i. refl;
  group_witness_is = λ i. refl;
  lock_is = λ i s. refl;
  type_is = λ i s. refl;
  type_hash_is = λ i s. refl;
  data_is = λ i s. refl;
  capacity_is = λ i s. refl;
  header_is = λ i. refl;
}

pub digest-IsHash : (b : Bytes) → IsHash (digest b)
digest-IsHash b =
    length-take 32 (b ++ replicate 32 0) ∙ omega (arith, length-append b (replicate 32 0))

-- A parseable form of a witness.
abbrev as_field : Option Bytes → Bytes
as_field none = 0 ∷ []
as_field (some b) = 1 ∷ length b ∷ b

abbrev parse_field : Bytes → Option Bytes × Bytes
parse_field (suc n ∷ size ∷ rest) = (some (take size rest), drop size rest)
parse_field (zero ∷ rest) = (none, rest)
parse_field _ = (none, [])

abbrev pub as_bytes : WitnessArgs → Bytes
as_bytes w = as_field w.lock ++ (as_field w.input_type ++ as_field w.output_type)

abbrev pub parse : Bytes → WitnessArgs
parse b =
    let (lock, rest) = parse_field b in
    let (input_type, rest') = parse_field rest in
    record { lock = lock; input_type = input_type; output_type = (parse_field rest').0 }

parse_field-as_field :
    (o : Option Bytes) (rest : Bytes) → parse_field (as_field o ++ rest) ≡ (o, rest)
parse_field-as_field none rest = refl
parse_field-as_field (some b) rest =
    rw (take-append (length b) b rest refl, drop-append (length b) b rest refl)

pub parse-as_bytes : (w : WitnessArgs) → parse (as_bytes w) ≡ w
parse-as_bytes w =
    let first = parse_field-as_field w.lock (as_field w.input_type ++ as_field w.output_type) in
    let second = parse_field-as_field w.input_type (as_field w.output_type) in
    let third : parse_field (as_field w.output_type) ≡ (w.output_type, []) =
      rw (append-nil (as_field w.output_type)) at (parse_field-as_field w.output_type []) in
    rw (first, second, third)
