-- ===== src/Collector/Sample.antt =====
-- internal/collector/collector_linux.go: `parsePerfSample`, on the bytes of a sample.
pub mod Layout
pub mod Offsets
pub mod Round
use prec.Base.{
  ℕ, zero, suc, ◌+◌, ◌-◌, ◌*◌, ◌/◌, ◌%◌, ◌^◌, ◌≤◌, ◌<◌, min, String, ◌≡◌, refl, sym, ap, ap₂, ◌∙◌,
  ◌≡⟨◌⟩◌, ◌∎, ◌≢◌, ◌↔◌, ◌⊎◌, inl, inr, Bool, true, false, not, ◌&&◌, ◌||◌, Option, none, some, List,
  [], ◌∷◌, ◌++◌, map, append-nil, append_assoc, arith, ltb, leb, ◌==◌, if◌then◌else◌, Bool-cases,
  Option-cases, ==_iff, ltb→lt, lt→ltb, leb→le, tests, length, get_elem?, get_or, set, take, drop,
  replicate, length-append, ℤ, pos, negsuc, pos_part, neg_part, ltb_ℤ, leb_ℤ, eqb_ℤ, ◌≤ℤ◌,
  eqb_ℤ_iff, Result, ok, err, ◌>>=◌, bind-eq-ok, map_result, Result-cases, ok_injective,
  bind_ok-eq-err,
}
use prec.Text.{Text, trim_space}

-- `binary.LittleEndian.Uint64` and its like, of the bytes that are given.
unfoldable pub little_endian : List ℕ → ℕ
little_endian [] = 0
little_endian (b ∷ bytes) = b + 256 * little_endian bytes

-- The 8 bytes at an offset.
abbrev pub uint64_at : List ℕ → ℕ → ℕ
uint64_at raw offset = little_endian (take 8 (drop offset raw))

-- A uint64 as an int64.
abbrev signed64 : ℕ → ℤ
signed64 v = if ltb v (2 ^ 63) then pos v else negsuc (2 ^ 64 - 1 - v)

-- `parsePerfSampleInt64`: a number of 32 bits with its sign bit set is a negative int32.
unfoldable pub parse_perf_sample_int64 : List ℕ → ℕ → ℤ
unfolding little_endian
parse_perf_sample_int64 raw offset =
    let v = uint64_at raw offset in
    if ltb v (2 ^ 32) && leb (2 ^ 31) v then negsuc (2 ^ 32 - 1 - v) else signed64 v

-- The perfEventType constants.
pub data EventType : Type 0 where
  exec exit_group process_exit exit_status exec_enter exec_result open_enter open_result : EventType
  write_enter write_result dup_enter dup_result : EventType

unfoldable pub event_type_of : ℕ → Option EventType
event_type_of n =
    if n == 1
    then some exec
    else if n == 2
    then some exit_group
    else if n == 3
    then some process_exit
    else if n == 4
    then some exit_status
    else if n == 5
    then some exec_enter
    else if n == 6
    then some exec_result
    else if n == 7
    then some open_enter
    else if n == 8
    then some open_result
    else if n == 13
    then some write_enter
    else if n == 14
    then some write_result
    else if n == 17
    then some dup_enter
    else if n == 18
    then some dup_result
    else none

pub record Sample : Type 0 where
  pub event_type : EventType
  pub tgid : ℕ
  pub tid : ℕ
  pub status : ℤ
  pub status2 : ℤ
  pub kernel_mono_ns : ℕ
  pub exe_hint : Text

abbrev pub perf_sample_size : ℕ
perf_sample_size = 32 + 256 + 8

-- The bytes before the first 0.
unfoldable pub until_zero : List ℕ → List ℕ
until_zero [] = []
until_zero (b ∷ bytes) = if b == 0 then [] else b ∷ until_zero bytes

module _ (decode_utf8 : List ℕ → Text) where
  -- `parseFilenameHint`; `decode_utf8` reads bytes as code points.
  unfoldable pub parse_filename_hint : List ℕ → Text
  unfolding until_zero
  parse_filename_hint raw = trim_space (decode_utf8 (until_zero (take 256 (drop 32 raw))))

  -- The `switch` of `parsePerfSample`.
  unfoldable pub payload : EventType → List ℕ → ℤ × ℤ × Text
  payload exec raw = (pos 0, pos 0, parse_filename_hint raw)
  payload exec_enter raw = (pos 0, pos 0, parse_filename_hint raw)
  payload open_enter raw =
      (parse_perf_sample_int64 raw 16, parse_perf_sample_int64 raw 288, parse_filename_hint raw)
  payload dup_enter raw = (parse_perf_sample_int64 raw 16, parse_perf_sample_int64 raw 288, [])
  payload process_exit raw = (pos 0, pos 0, [])
  payload _ raw = (parse_perf_sample_int64 raw 16, pos 0, [])

  -- `parsePerfSample`; `none` is a sample that is passed over. The thread group stands in the upper 32
  -- bits, and an int of 64 bits holds it.
  unfoldable pub parse_perf_sample : List ℕ → Option Sample
  unfolding event_type_of payload
  parse_perf_sample raw =
      if ltb (length raw) perf_sample_size
      then none
      else (let pid_tgid = uint64_at raw 8 in
          let tgid = pid_tgid / 2 ^ 32 in
          let tid = pid_tgid % 2 ^ 32 in
          if tgid == 0 || tid == 0 then none else elim (event_type_of (get_or raw 0 0)) [
            | none ↦ none
            | some t ↦
                let (status, status2, exe_hint) = payload t raw in
                some (record {
                  event_type = t;
                  tgid = tgid;
                  tid = tid;
                  status = status;
                  status2 = status2;
                  kernel_mono_ns = uint64_at raw 24;
                  exe_hint = exe_hint;
                })
          ])
