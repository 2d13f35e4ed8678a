-- ===== src/Collector/Sample/Layout.antt =====
-- internal/collector/collector_linux.go: the bytes of a sample, as the eBPF programs store them.
use prec.Base.{
  ℕ, zero, suc, ◌+◌, ◌-◌, ◌*◌, ◌/◌, ◌%◌, ◌^◌, ◌≤◌, ◌<◌, ◌≡◌, refl, ap, ◌∙◌, ◌≢◌, List, [], ◌∷◌,
  ◌++◌, arith, length, take, drop, length-append, ℤ, pos, negsuc, Every,
}
use prec.Collector.Sample.{
  little_endian, EventType, exec, exit_group, process_exit, exit_status, exec_enter, exec_result,
  open_enter, open_result, write_enter, write_result, dup_enter, dup_result,
}

-- The first bytes of a number, the lowest first.
unfoldable pub bytes_of : ℕ → ℕ → List ℕ
bytes_of zero v = []
bytes_of (suc n) v = v % 256 ∷ bytes_of n (v / 256)

pub length-bytes_of : (n v : ℕ) → length (bytes_of n v) ≡ n
unfolding bytes_of
length-bytes_of zero v = refl
length-bytes_of (suc n) v = omega (arith, length-bytes_of n (v / 256))

pub little_endian-bytes_of : (n v : ℕ) → v < 256 ^ n → little_endian (bytes_of n v) ≡ v
unfolding bytes_of little_endian
little_endian-bytes_of zero v h = omega (arith, h)
little_endian-bytes_of (suc n) v h =
    let ih = little_endian-bytes_of n (v / 256) (omega (arith, h)) in omega (arith, ih)

little_endian-first :
    (low : ℕ) (ys : List ℕ)
    → little_endian (bytes_of 4 low ++ ys)
      ≡ little_endian (bytes_of 4 low) + 2 ^ 32 * little_endian ys
unfolding bytes_of little_endian
little_endian-first low ys = omega arith

-- Two numbers of 32 bits as one of 64, the first one in the lower half.
pub little_endian-halves :
    (low high : ℕ)
    → low < 2 ^ 32
    → high < 2 ^ 32
    → little_endian (bytes_of 4 low ++ bytes_of 4 high) ≡ low + 2 ^ 32 * high
little_endian-halves low high l h =
    let first = little_endian-bytes_of 4 low l in
    let second = little_endian-bytes_of 4 high h in
    little_endian-first low (bytes_of 4 high) ∙ rw (first, second) refl

module _ {ℓ} {A : Type ℓ} where
  pub take-chunk : (n : ℕ) (xs ys : List A) → length xs ≡ n → take n (xs ++ ys) ≡ xs
  take-chunk zero [] ys h = refl
  take-chunk zero (x ∷ xs) ys h = absurd (omega (arith, h))
  take-chunk (suc n) [] ys h = absurd (omega (arith, h))
  take-chunk (suc n) (x ∷ xs) ys h = ap (◌∷◌ x) (take-chunk n xs ys (omega (arith, h)))

  -- What stands behind a chunk, at an offset that counts from the end of the chunk.
  pub drop-chunk :
      (n m : ℕ) (xs ys zs : List A) → length xs ≡ n → drop m ys ≡ zs → drop (n + m) (xs ++ ys) ≡ zs
  drop-chunk zero m [] ys zs h e = let same : 0 + m ≡ m = omega arith in rw same e
  drop-chunk zero m (x ∷ xs) ys zs h e = absurd (omega (arith, h))
  drop-chunk (suc n) m [] ys zs h e = absurd (omega (arith, h))
  drop-chunk (suc n) m (x ∷ xs) ys zs h e =
      let same : suc n + m ≡ suc (n + m) = omega arith in
      rw same (drop-chunk n m xs ys zs (omega (arith, h)) e)

  pub length-chunk :
      (n m : ℕ) (xs ys : List A) → length xs ≡ n → length ys ≡ m → length (xs ++ ys) ≡ n + m
  length-chunk n m xs ys h k = omega (arith, length-append xs ys, h, k)

-- The number of an event type in the first byte.
abbrev pub type_byte : EventType → ℕ
type_byte exec = 1
type_byte exit_group = 2
type_byte process_exit = 3
type_byte exit_status = 4
type_byte exec_enter = 5
type_byte exec_result = 6
type_byte open_enter = 7
type_byte open_result = 8
type_byte write_enter = 13
type_byte write_result = 14
type_byte dup_enter = 17
type_byte dup_result = 18

-- What a program stores in a sample. The name ends at the first 0 of its 256 bytes, or fills them.
pub record Fields : Type 0 where
  pub kind : EventType
  pub padding : List ℕ
  pub tid : ℕ
  pub tgid : ℕ
  pub status : ℕ
  pub time : ℕ
  pub name : List ℕ
  pub after_name : List ℕ
  pub status2 : ℕ
  pub rest : List ℕ

module _ (f : Fields) where
  -- The second status, and whatever the ring adds.
  abbrev pub from_status2 : List ℕ
  from_status2 = bytes_of 8 f.status2 ++ f.rest

  -- The 256 bytes of the name, and on.
  abbrev pub from_name : List ℕ
  from_name = (f.name ++ f.after_name) ++ from_status2

  abbrev pub from_time : List ℕ
  from_time = bytes_of 8 f.time ++ from_name

  abbrev pub from_status : List ℕ
  from_status = bytes_of 8 f.status ++ from_time

  -- The thread and the process.
  abbrev pub ids : List ℕ
  ids = bytes_of 4 f.tid ++ bytes_of 4 f.tgid

  abbrev pub from_ids : List ℕ
  from_ids = ids ++ from_status

  -- The type and 7 bytes more.
  abbrev pub first_bytes : List ℕ
  first_bytes = type_byte f.kind ∷ f.padding

  -- The bytes of a sample: the type, the two ids, a status, the time, the name, a second status.
  abbrev pub sample_bytes : List ℕ
  sample_bytes = first_bytes ++ from_ids

-- A list that is empty or begins with 0.
abbrev pub EndsName : List ℕ → Type 0
EndsName [] = Unit
EndsName (b ∷ _) = b ≡ 0

-- Fields of the sizes that the programs store.
pub record FitsSample (f : Fields) : Type 0 where
  pub padding_length : length f.padding ≡ 7
  pub thread : (0 < f.tid) × (f.tid < 2 ^ 32)
  pub process : (0 < f.tgid) × (f.tgid < 2 ^ 32)
  pub ktime : f.time < 2 ^ 64
  pub area : length (f.name ++ f.after_name) ≡ 256
  pub no_zero : Every (λ b. b ≢ 0) f.name
  pub ends : EndsName f.after_name

-- The number that 64 bits carry: two's complement of 64 bits, and a negative number also in the lower
-- 32 bits, with the upper ones 0.
pub data Carries : ℕ → ℤ → Type 0 where
  short : {n : ℕ} → n < 2 ^ 31 → Carries n (pos n)
  long : {n : ℕ} → 2 ^ 32 ≤ n → n < 2 ^ 63 → Carries n (pos n)
  negative : {n : ℕ} → n < 2 ^ 63 → Carries (2 ^ 64 - 1 - n) (negsuc n)
  negative32 : {n : ℕ} → n < 2 ^ 31 → Carries (2 ^ 32 - 1 - n) (negsuc n)
