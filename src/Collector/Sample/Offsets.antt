-- ===== src/Collector/Sample/Offsets.antt =====
-- internal/collector/collector_linux.go: what `parsePerfSample` finds at its offsets, in the bytes that the
-- eBPF programs store.
use prec.Base.{
  ℕ, ◌+◌, ◌*◌, ◌^◌, ◌<◌, ◌≡◌, refl, ap, ◌∙◌, ◌≢◌, false, List, [], ◌∷◌, ◌++◌, arith, ◌==◌, length,
  take, drop, length-append, Every,
}
use prec.Collector.Sample.{little_endian, uint64_at, until_zero}
use prec.Collector.Sample.Layout.{
  bytes_of, length-bytes_of, little_endian-bytes_of, little_endian-halves, take-chunk, drop-chunk,
  length-chunk, Fields, sample_bytes, from_status2, from_name, from_time, from_status, ids,
  from_ids, first_bytes, EndsName, FitsSample,
}

-- The name ends where its bytes do.
until_zero-name :
    (name after : List ℕ)
    → Every (λ b. b ≢ 0) name
    → EndsName after
    → until_zero (name ++ after) ≡ name
unfolding until_zero
until_zero-name [] [] h e = refl
until_zero-name [] (b ∷ after) h e = rw e refl
until_zero-name (b ∷ name) after h e =
    let here : (b == 0) ≡ false = ground (arith, h.0) in
    rw (here, until_zero-name name after h.1 e) refl

module _ (f : Fields) (fits : FitsSample f) where
  length-first_bytes : length (first_bytes f) ≡ 8
  length-first_bytes = omega (arith, fits.padding_length)

  length-ids : length (ids f) ≡ 8
  length-ids =
      length-chunk 4 4 (bytes_of 4 f.tid) (bytes_of 4 f.tgid) (length-bytes_of 4 f.tid)
        (length-bytes_of 4 f.tgid)

  status_length : length (bytes_of 8 f.status) ≡ 8
  status_length = length-bytes_of 8 f.status

  time_length : length (bytes_of 8 f.time) ≡ 8
  time_length = length-bytes_of 8 f.time

  status2_length : length (bytes_of 8 f.status2) ≡ 8
  status2_length = length-bytes_of 8 f.status2

  pub length-sample_bytes : length (sample_bytes f) ≡ 296 + length f.rest
  length-sample_bytes = omega (
    arith,
    length-append (first_bytes f) (from_ids f),
    length-append (ids f) (from_status f),
    length-append (bytes_of 8 f.status) (from_time f),
    length-append (bytes_of 8 f.time) (from_name f),
    length-append (f.name ++ f.after_name) (from_status2 f),
    length-append (bytes_of 8 f.status2) f.rest,
    length-first_bytes,
    length-ids,
    status_length,
    time_length,
    status2_length,
    fits.area,
  )

  drop-ids : drop 8 (sample_bytes f) ≡ from_ids f
  drop-ids = drop-chunk 8 0 (first_bytes f) (from_ids f) _ length-first_bytes refl

  -- The offsets count from the end of the ids.
  drop-after_ids :
      (m : ℕ) (zs : List ℕ) → drop m (from_status f) ≡ zs → drop (8 + (8 + m)) (sample_bytes f) ≡ zs
  drop-after_ids m zs e =
      drop-chunk 8 (8 + m) (first_bytes f) (from_ids f) zs length-first_bytes
        (drop-chunk 8 m (ids f) (from_status f) zs length-ids e)

  drop-status : drop 16 (sample_bytes f) ≡ from_status f
  drop-status = drop-after_ids 0 _ refl

  drop-time : drop 24 (sample_bytes f) ≡ from_time f
  drop-time =
      drop-after_ids 8 _ (drop-chunk 8 0 (bytes_of 8 f.status) (from_time f) _ status_length refl)

  drop-after_time :
      (m : ℕ) (zs : List ℕ)
      → drop m (from_name f) ≡ zs
      → drop (8 + (8 + (8 + (8 + m)))) (sample_bytes f) ≡ zs
  drop-after_time m zs e = drop-after_ids (8 + (8 + m)) zs (
      drop-chunk 8 (8 + m) (bytes_of 8 f.status) (from_time f) zs status_length
        (drop-chunk 8 m (bytes_of 8 f.time) (from_name f) zs time_length e))

  drop-name : drop 32 (sample_bytes f) ≡ from_name f
  drop-name = drop-after_time 0 _ refl

  drop-status2 : drop 288 (sample_bytes f) ≡ from_status2 f
  drop-status2 =
      drop-after_time 256 _
        (drop-chunk 256 0 (f.name ++ f.after_name) (from_status2 f) _ fits.area refl)

  uint64_at-chunk :
      (offset v : ℕ) (xs ys : List ℕ)
      → drop offset (sample_bytes f) ≡ xs ++ ys
      → length xs ≡ 8
      → little_endian xs ≡ v
      → uint64_at (sample_bytes f) offset ≡ v
  uint64_at-chunk offset v xs ys at_offset long_enough value =
      ap (λ bytes. little_endian (take 8 bytes)) at_offset
      ∙ ap little_endian (take-chunk 8 xs ys long_enough)
      ∙ value

  pub ids_at : uint64_at (sample_bytes f) 8 ≡ f.tid + 2 ^ 32 * f.tgid
  ids_at =
      uint64_at-chunk 8 _ (ids f) (from_status f) drop-ids length-ids
        (little_endian-halves f.tid f.tgid fits.thread.1 fits.process.1)

  pub status_at : f.status < 2 ^ 64 → uint64_at (sample_bytes f) 16 ≡ f.status
  status_at h =
      uint64_at-chunk 16 _ (bytes_of 8 f.status) (from_time f) drop-status status_length
        (little_endian-bytes_of 8 f.status h)

  pub time_at : uint64_at (sample_bytes f) 24 ≡ f.time
  time_at =
      uint64_at-chunk 24 _ (bytes_of 8 f.time) (from_name f) drop-time time_length
        (little_endian-bytes_of 8 f.time fits.ktime)

  pub status2_at : f.status2 < 2 ^ 64 → uint64_at (sample_bytes f) 288 ≡ f.status2
  status2_at h =
      uint64_at-chunk 288 _ (bytes_of 8 f.status2) f.rest drop-status2 status2_length
        (little_endian-bytes_of 8 f.status2 h)

  pub name_at : until_zero (take 256 (drop 32 (sample_bytes f))) ≡ f.name
  name_at =
      ap (λ bytes. until_zero (take 256 bytes)) drop-name
      ∙ ap until_zero (take-chunk 256 (f.name ++ f.after_name) (from_status2 f) fits.area)
      ∙ until_zero-name f.name f.after_name fits.no_zero fits.ends
