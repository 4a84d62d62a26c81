-- ===== src/Trace/Importer.antt =====
-- internal/trace/importer.go: parsing and conversion of the input events.
pub mod Resource
use Prim.Native.Char.{code}
use task274_replaydivergence.Prelude.{
  ℕ, zero, suc, ◌-◌, ◌*◌, ◌/◌, ◌%◌, ◌^◌, String, ◌&&◌, ◌||◌, List, [], ◌∷◌, ◌==◌, ltb, str_eq,
  if◌then◌else◌,
}
use task274_replaydivergence.Prelude.Int.{ℤ, pos, negsuc, ltb_ℤ, leb_ℤ}
use task274_replaydivergence.Prelude.Order.{int_order}
use task274_replaydivergence.Prelude.Sort.{sort_on}
use task274_replaydivergence.Prelude.StrMap.{StrMap}
use task274_replaydivergence.Model.Errors.{
  Error, ResourceError, Result, ok, err, empty_name, bad_form, missing_opcode, bad_read, bad_write,
  negative_seq, out_of_order, ◌>>=◌,
}
use task274_replaydivergence.Model.Status.{TrailSide, EventStatus}
use task274_replaydivergence.Model.Event.{
  ResourceAccess, ExecEvent, join, normalize_reads, normalize_writes,
}
use task274_replaydivergence.Compare.Hash.{hex_digit}

pub record EventInput : Type 0 where
  pub seq : ℤ
  pub pc : String
  pub opcode : String
  pub stage : String
  pub reads : List String
  pub writes : List String
  pub values : StrMap String

pub data Parsed : Type 0 where
  access : ResourceAccess → Parsed
  refused : ResourceError → Parsed

-- s[:i+1] from s[:i] and s[i]
push : String → String → String
push String.[] c = c
push (String.◌∷◌ d s) c = String.◌∷◌ d (push s c)

-- The loop: `before` is s[:i] and the rest is s[i:].
parse_loop : String → String → Parsed
unfolding push
parse_loop before String.[] = refused bad_form
parse_loop before (String.◌∷◌ c after) =
    let rest = parse_loop (push before (String.◌∷◌ c "")) after in
    if code c == b':' && (str_eq before "reg" || str_eq before "mem")
    then (if str_eq after ""
        then refused empty_name
        else access (record { kind = before; name = after }))
    else rest

unfoldable pub parse_resource : String → Parsed
unfolding parse_loop
parse_resource s = parse_loop "" s

-- The 64 bits of an int64.
bits_of : ℤ → ℕ
bits_of (pos n) = n
bits_of (negsuc n) = 2 ^ 64 - 1 - n

-- seq * 4 in int64
unfoldable pub times4 : ℤ → ℤ
unfolding bits_of
times4 seq =
    let bits = bits_of seq * 4 % 2 ^ 64 in
    if ltb bits (2 ^ 63) then pos bits else negsuc (2 ^ 64 - 1 - bits)

-- The hexadecimal digits of `n` without leading zeros, in front of `acc`; 16 rounds serve 64 bits.
hex_minimal : ℕ → ℕ → String → String
unfolding hex_digit
hex_minimal zero n acc = acc
hex_minimal (suc k) n acc =
    let here = String.◌∷◌ (hex_digit (n % 16)) acc in
    let rest = hex_minimal k (n / 16) here in if n / 16 == 0 then here else rest

-- fmt.Sprintf("0x%x", z)
unfoldable pub hex_of : ℤ → String
unfolding hex_minimal join
hex_of (pos n) = join "0x" (hex_minimal 16 n "")
hex_of (negsuc n) = join "0x-" (hex_minimal 16 (suc n) "")

-- The two loops of `ToModel` over the resources; `bad` builds their error.
parse_all : (String → ResourceError → Error) → List String → Result (List ResourceAccess)
unfolding parse_resource
parse_all bad [] = ok []
parse_all bad (r ∷ rs) =
    let rest = parse_all bad rs in
    elim (parse_resource r) [
      | refused e ↦ err (bad r e)
      | access ra ↦ (do more ← rest; ok (ra ∷ more))
    ]

unfoldable pub to_model : EventInput → ℕ → TrailSide → EventStatus → Result ExecEvent
unfolding parse_all times4 hex_of normalize_reads normalize_writes
to_model input batch_id side status =
    if str_eq input.opcode "" then err (missing_opcode input.seq) else do
      reads ← parse_all (bad_read input.seq) input.reads
      writes ← parse_all (bad_write input.seq) input.writes
      let e : ExecEvent = record {
        id = 0;
        batch_id = batch_id;
        side = side;
        seq = input.seq;
        pc = if str_eq input.pc "" then hex_of (times4 input.seq) else input.pc;
        opcode = input.opcode;
        stage = input.stage;
        reads = reads;
        writes = writes;
        values = input.values;
        status = status;
        note = "";
        created_at = 0;
      }
      ok (normalize_writes (normalize_reads e))

-- The loop of `ValidateSequence`.
unfoldable pub validate_from : ℤ → List ExecEvent → Result (Unit {0})
validate_from last [] = ok tt
validate_from last (e ∷ es) =
    let rest = validate_from e.seq es in
    if ltb_ℤ e.seq (pos 0)
    then err (negative_seq e.seq)
    else if leb_ℤ e.seq last
    then err (out_of_order e.seq last)
    else rest

unfoldable pub validate_sequence : List ExecEvent → Result (Unit {0})
unfolding validate_from
validate_sequence events = validate_from (negsuc 0) events

unfoldable pub dedupe_inputs : List EventInput → List EventInput
dedupe_inputs inputs = sort_on (λ i. i.seq) inputs
