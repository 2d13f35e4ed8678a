-- ===== src/Collector/Sample/Round.antt =====
-- internal/collector/collector_linux.go: `parsePerfSample` on the bytes that the eBPF programs store.
use prec.Base.{
  ℕ, ◌/◌, ◌%◌, ◌^◌, ◌<◌, ◌≡◌, refl, ap, ap₂, Bool, true, false, ◌||◌, some, List, [], arith, ltb,
  ◌==◌, if◌then◌else◌, length, ℤ, pos,
}
use prec.Text.{Text, trim_space}
use prec.Collector.Sample.{
  uint64_at, parse_perf_sample_int64, EventType, exec, exit_group, process_exit, exit_status,
  exec_enter, exec_result, open_enter, open_result, write_enter, write_result, dup_enter,
  dup_result, event_type_of, Sample, payload, parse_perf_sample, perf_sample_size,
  parse_filename_hint,
}
use prec.Collector.Sample.Layout.{
  type_byte, Fields, sample_bytes, FitsSample, Carries, short, long, negative, negative32,
}
use prec.Collector.Sample.Offsets.{
  length-sample_bytes, ids_at, status_at, time_at, status2_at, name_at,
}

-- The number that 64 bits carry is read back.
Carries-small : (v : ℕ) (z : ℤ) → Carries v z → v < 2 ^ 64
Carries-small v _ (short h) = omega (arith, h)
Carries-small v _ (long a b) = omega (arith, b)
Carries-small _ _ (negative h) = omega (arith, h)
Carries-small _ _ (negative32 h) = omega (arith, h)

parse_perf_sample_int64-Carries :
    (raw : List ℕ) (offset v : ℕ) (z : ℤ)
    → uint64_at raw offset ≡ v
    → Carries v z
    → parse_perf_sample_int64 raw offset ≡ z
unfolding parse_perf_sample_int64
parse_perf_sample_int64-Carries raw offset v _ e (short h) = rw e (ground arith)
parse_perf_sample_int64-Carries raw offset v _ e (long a b) = rw e (ground arith)
parse_perf_sample_int64-Carries raw offset _ _ e (negative {n = n} h) = rw e (ground arith)
parse_perf_sample_int64-Carries raw offset _ _ e (negative32 {n = n} h) = rw e (ground arith)

event_type_of-type_byte : (t : EventType) → event_type_of (type_byte t) ≡ some t
unfolding event_type_of
event_type_of-type_byte exec = refl
event_type_of-type_byte exit_group = refl
event_type_of-type_byte process_exit = refl
event_type_of-type_byte exit_status = refl
event_type_of-type_byte exec_enter = refl
event_type_of-type_byte exec_result = refl
event_type_of-type_byte open_enter = refl
event_type_of-type_byte open_result = refl
event_type_of-type_byte write_enter = refl
event_type_of-type_byte write_result = refl
event_type_of-type_byte dup_enter = refl
event_type_of-type_byte dup_result = refl

-- The types whose samples have a status, a second one, and a name.
abbrev has_status : EventType → Bool
has_status exec = false
has_status exec_enter = false
has_status process_exit = false
has_status _ = true

abbrev has_status2 : EventType → Bool
has_status2 open_enter = true
has_status2 dup_enter = true
has_status2 _ = false

abbrev has_name : EventType → Bool
has_name exec = true
has_name exec_enter = true
has_name open_enter = true
has_name _ = false

abbrev number_if : Bool → ℤ → ℤ
number_if present z = if present then z else pos 0

abbrev text_if : Bool → Text → Text
text_if present text = if present then text else []

module _ (decode_utf8 : List ℕ → Text) where
  -- What the fields of a sample tell, of its type.
  abbrev pub told : Fields → ℤ → ℤ → Sample
  told f status status2 = record {
    event_type = f.kind;
    tgid = f.tgid;
    tid = f.tid;
    status = number_if (has_status f.kind) status;
    status2 = number_if (has_status2 f.kind) status2;
    kernel_mono_ns = f.time;
    exe_hint = text_if (has_name f.kind) (trim_space (decode_utf8 f.name));
  }

  payload-told :
      (t : EventType) (raw : List ℕ) (z z2 : ℤ) (hint : Text)
      → parse_perf_sample_int64 raw 16 ≡ z
      → parse_perf_sample_int64 raw 288 ≡ z2
      → parse_filename_hint decode_utf8 raw ≡ hint
      → payload decode_utf8 t raw
        ≡ (number_if (has_status t) z, number_if (has_status2 t) z2, text_if (has_name t) hint)
  unfolding payload
  payload-told exec raw z z2 hint a b c = rw c refl
  payload-told exit_group raw z z2 hint a b c = rw a refl
  payload-told process_exit raw z z2 hint a b c = refl
  payload-told exit_status raw z z2 hint a b c = rw a refl
  payload-told exec_enter raw z z2 hint a b c = rw c refl
  payload-told exec_result raw z z2 hint a b c = rw a refl
  payload-told open_enter raw z z2 hint a b c = rw (a, b, c) refl
  payload-told open_result raw z z2 hint a b c = rw a refl
  payload-told write_enter raw z z2 hint a b c = rw a refl
  payload-told write_result raw z z2 hint a b c = rw a refl
  payload-told dup_enter raw z z2 hint a b c = rw (a, b) refl
  payload-told dup_result raw z z2 hint a b c = rw a refl

  -- `parsePerfSample` reads back what is stored: from the bytes of a sample whose ids are positive and fit
  -- in 32 bits, whose time fits in 64 and whose name has its 256 bytes, it gives the stored type, process,
  -- thread and time; and of the statuses and the name those that the type has, where a status is the
  -- number that its 64 bits carry, a negative one also as 32 bits with its sign, and the name is
  -- trimmed and ends before the first 0 byte.
  pub parse_perf_sample-sample_bytes :
      (f : Fields) (status status2 : ℤ)
      → FitsSample f
      → Carries f.status status
      → Carries f.status2 status2
      → parse_perf_sample decode_utf8 (sample_bytes f) ≡ some (told f status status2)
  unfolding parse_perf_sample parse_filename_hint
  parse_perf_sample-sample_bytes f z z2 fits c c2 =
      let raw = sample_bytes f in
      let size : ltb (length raw) perf_sample_size ≡ false =
        ground (arith, length-sample_bytes f fits) in
      let word = ids_at f fits in
      let group : uint64_at raw 8 / 2 ^ 32 ≡ f.tgid = omega (arith, word, fits.thread) in
      let thread : uint64_at raw 8 % 2 ^ 32 ≡ f.tid = omega (arith, word, fits.thread) in
      let present : (uint64_at raw 8 / 2 ^ 32 == 0 || uint64_at raw 8 % 2 ^ 32 == 0) ≡ false =
        rw (group, thread) (ground (arith, fits.thread, fits.process)) in
      let first =
        parse_perf_sample_int64-Carries raw 16 f.status z
          (status_at f fits (Carries-small f.status z c)) c in
      let second =
        parse_perf_sample_int64-Carries raw 288 f.status2 z2
          (status2_at f fits (Carries-small f.status2 z2 c2)) c2 in
      let hint = ap (λ name. trim_space (decode_utf8 name)) (name_at f fits) in
      rw
        (
          size,
          present,
          event_type_of-type_byte f.kind,
          payload-told f.kind raw z z2 _ first second hint,
          time_at f fits,
        )
        (ap₂ (λ g t. some (record (told f z z2) { tgid = g; tid = t })) group thread)
