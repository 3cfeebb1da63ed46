-- ===== src/Ntfs/Valid.antt =====
-- The boot sector parser on arbitrary bytes, and what a sector that it accepts satisfies.
use file_recovery_engine.Prelude.{
  ℕ, zero, suc, ◌+◌, ◌-◌, ◌*◌, ◌^◌, ◌≤◌, ◌<◌, ◌≡◌, ap, sym, ◌∙◌, ◌⊎◌, arith, true, false, not, ◌||◌,
  Option, some, inl, inr,
}
use file_recovery_engine.Prelude.{ltb, ◌==◌, length, get_elem?, get_elem?-some, ltb→lt, Bool-cases}
use file_recovery_engine.Prelude.Outcome.{
  ok, ok_or, or_panic, ok-injective, Returns, Returns-bind, Returns-fail_if, bind-eq-ok,
  fail_if-eq-ok, ◌>>=◌,
}
use file_recovery_engine.Prelude.Checked.{
  checked_mul32, checked_mul32-some, is_power_of_two, is_power_of_two_sound,
}
use file_recovery_engine.Prelude.Bytes.{Bytes, get_range, get_range_total, bytes_eq, from_le}
use file_recovery_engine.Prelude.Int.{pos, negsuc}
use mathlib.Core.Path.{subst}
use file_recovery_engine.Ntfs.Sector.{
  NtfsBootSector, invalid_file_record_size, invalid_index_record_size, arithmetic_overflow,
  cluster_size_bytes, read_u16_le, read_u64_le, as_i8, decode_record_size, ntfs_oem_id,
  parse_geometry, parse_record_sizes, parse_boot_sector,
}

read_u16_le_total :
    (bytes : Bytes) (offset : ℕ)
    → offset + 2 ≤ length bytes
    → (v : ℕ) × (read_u16_le bytes offset ≡ ok v)
unfolding read_u16_le
read_u16_le_total bytes offset h =
    let (buf, found, _) = get_range_total bytes offset (offset + 2) (omega arith) h in
    (from_le buf, rw found)

read_u64_le_total :
    (bytes : Bytes) (offset : ℕ)
    → offset + 8 ≤ length bytes
    → (v : ℕ) × (read_u64_le bytes offset ≡ ok v)
unfolding read_u64_le
read_u64_le_total bytes offset h =
    let (buf, found, _) = get_range_total bytes offset (offset + 8) (omega arith) h in
    (from_le buf, rw found)

pub accepted_power :
    (w v : ℕ) → (v == 0 || not (is_power_of_two w v)) ≡ false → is_power_of_two w v ≡ true
accepted_power w v h = elim (Bool-cases (is_power_of_two w v)) [
  | inl power ↦ power
  | inr none_of_them ↦ ground arith
]

ok_or-inv {ℓ κ} :
    {E : Type ℓ} {A : Type κ} {o : Option A} (x : E) {a : A} → ok_or o x ≡ ok a → o ≡ some a
ok_or-inv x e = grind arith

parse_geometry-Returns : (bytes : Bytes) → Returns (parse_geometry bytes)
unfolding parse_geometry
parse_geometry-Returns bytes = Returns-fail_if (ltb (length bytes) 512) _ _ λ long.
    let (oem, e, size) = get_range_total bytes 0x03 0x0B (omega arith) (ground arith) in
    let (signature, f) = read_u16_le_total bytes 0x1FE (ground arith) in
    let (bps, g) = read_u16_le_total bytes 0x0B (ground arith) in
    let (spc, i) = get_elem?-some bytes 0x0D (ground arith) in
    rw (e, f, g, i)
      (Returns-fail_if (not (bytes_eq oem ntfs_oem_id)) _ _ λ _.
        Returns-fail_if (not (signature == 0xAA55)) _ _ λ _.
          Returns-fail_if (bps == 0 || not (is_power_of_two 16 bps)) _ _
            λ _. Returns-fail_if (spc == 0 || not (is_power_of_two 8 spc)) _ _ λ _. ground arith)

-- The geometry of a sector that is accepted.
pub record Geometry (bytes : Bytes) (bps spc cluster : ℕ) : Type 0 where
  pub long : 512 ≤ length bytes
  pub sector_power : is_power_of_two 16 bps ≡ true
  pub cluster_power : is_power_of_two 8 spc ≡ true
  pub product : cluster ≡ bps * spc

Geometry-of :
    (bytes : Bytes) (b s : ℕ) {bps spc cluster : ℕ}
    → is_power_of_two 16 b ≡ true
    → is_power_of_two 8 s ≡ true
    → 512 ≤ length bytes
    → ◌>>=◌ {B = ℕ × ℕ × ℕ}
        (ok_or (checked_mul32 b s) (arithmetic_overflow "cluster size"))
        (λ c. ok (b, s, c))
      ≡ ok (bps, spc, cluster)
    → Geometry bytes bps spc cluster
Geometry-of bytes b s h k long e =
    let (c, at_c, same) = bind-eq-ok _ _ e in
    let product = (checked_mul32-some b s (ok_or-inv _ at_c)).0 in
    let triple = ok-injective same in
    record {
      long = long;
      sector_power = subst (λ v. is_power_of_two 16 v ≡ true) (ap (λ t. t.0) triple) h;
      cluster_power = subst (λ v. is_power_of_two 8 v ≡ true) (ap (λ t. t.1) triple) k;
      product = sym (ap (λ t. t.2) triple) ∙ product ∙ ap (λ t. t.0 * t.1) triple;
    }

parse_geometry-Geometry :
    (bytes : Bytes) {bps spc cluster : ℕ}
    → parse_geometry bytes ≡ ok (bps, spc, cluster)
    → Geometry bytes bps spc cluster
unfolding parse_geometry
parse_geometry-Geometry bytes {bps} {spc} {cluster} e =
    let (long, e1) = fail_if-eq-ok (ltb (length bytes) 512) _ _ e in
    let (oem, at_oem, e2) = bind-eq-ok (or_panic (get_range bytes 0x03 0x0B)) _ e1 in
    let (named, e3) = fail_if-eq-ok (not (bytes_eq oem ntfs_oem_id)) _ _ e2 in
    let (signature, at_signature, e4) = bind-eq-ok (read_u16_le bytes 0x1FE) _ e3 in
    let (signed, e5) = fail_if-eq-ok (not (signature == 0xAA55)) _ _ e4 in
    let (b, at_b, e6) = bind-eq-ok (read_u16_le bytes 0x0B) _ e5 in
    let (sized, e7) = fail_if-eq-ok (b == 0 || not (is_power_of_two 16 b)) _ _ e6 in
    let (s, at_s, e8) = bind-eq-ok (or_panic (get_elem? bytes 0x0D)) _ e7 in
    let (clustered, e9) = fail_if-eq-ok (s == 0 || not (is_power_of_two 8 s)) _ _ e8 in
    Geometry-of bytes b s (accepted_power 16 b sized) (accepted_power 8 s clustered) (ground arith)
      e9

parse_record_sizes-Returns :
    (bytes : Bytes) (cluster : ℕ) → 512 ≤ length bytes → Returns (parse_record_sizes bytes cluster)
unfolding parse_record_sizes
parse_record_sizes-Returns bytes cluster h =
    grind (arith, get_elem?-some bytes 0x40, get_elem?-some bytes 0x44)

-- On every byte string `parse_boot_sector` returns, with a sector or with an error.
pub parse_boot_sector-Returns : (bytes : Bytes) → Returns (parse_boot_sector bytes)
unfolding parse_boot_sector
parse_boot_sector-Returns bytes = Returns-bind _ _ (parse_geometry-Returns bytes) λ r e.
    let g = parse_geometry-Geometry bytes e in
    let long = g.long in
    Returns-bind _ _ (parse_record_sizes-Returns bytes r.2 long) λ sizes f.
      let (total, l) = read_u64_le_total bytes 0x28 (omega arith) in
      let (mft, m) = read_u64_le_total bytes 0x30 (omega arith) in
      let (mirror, n) = read_u64_le_total bytes 0x38 (omega arith) in
      let (serial, o) = read_u64_le_total bytes 0x48 (omega arith) in
      rw (l, m, n, o) (λ p. cc, λ p. cc)

-- A record is a number of whole clusters, or a power of two of bytes.
abbrev pub IsRecordSize : ℕ → ℕ → Type 0
IsRecordSize cluster size =
    ((n : ℕ) × (1 ≤ n) × (n < 128) × (size ≡ cluster * n))
    ⊎ ((k : ℕ) × (1 ≤ k) × (k < 32) × (size ≡ 2 ^ k))

pub record IsValid (sector : NtfsBootSector) : Type 0 where
  pub sector_size : (k : ℕ) × (k < 16) × (sector.bytes_per_sector ≡ 2 ^ k)
  pub cluster_size : (k : ℕ) × (k < 8) × (sector.sectors_per_cluster ≡ 2 ^ k)
  pub file_record : IsRecordSize (cluster_size_bytes sector) sector.file_record_size_bytes
  pub index_record : IsRecordSize (cluster_size_bytes sector) sector.index_record_size_bytes

decode_pos :
    (raw cluster : ℕ) {size : ℕ}
    → raw < 128
    → decode_record_size (pos raw) cluster ≡ some size
    → IsRecordSize cluster size
unfolding decode_record_size checked_mul32
decode_pos zero cluster h e = absurd (cc)
decode_pos (suc n) cluster h e = inl (suc n, omega arith, h, ground arith)

decode_negsuc :
    (n cluster : ℕ) {size : ℕ}
    → decode_record_size (negsuc n) cluster ≡ some size
    → IsRecordSize cluster size
unfolding decode_record_size
decode_negsuc n cluster e = inr (suc n, omega arith, ground arith, ground arith)

decode_record_size-IsRecordSize :
    (raw cluster : ℕ) {size : ℕ}
    → decode_record_size (as_i8 raw) cluster ≡ some size
    → IsRecordSize cluster size
unfolding as_i8
decode_record_size-IsRecordSize raw cluster e = elim (Bool-cases (ltb raw 128)) [
  | inl small ↦ decode_pos raw cluster (ltb→lt raw 128 small) (rw small at e)
  | inr large ↦ decode_negsuc (255 - raw) cluster (rw large at e)
]

parse_record_sizes-IsRecordSize :
    (bytes : Bytes) (cluster : ℕ) {sizes : ℕ × ℕ}
    → parse_record_sizes bytes cluster ≡ ok sizes
    → IsRecordSize cluster sizes.0 × IsRecordSize cluster sizes.1
unfolding parse_record_sizes
parse_record_sizes-IsRecordSize bytes cluster e =
    let (file_raw, at_file, e1) = bind-eq-ok (or_panic (get_elem? bytes 0x40)) _ e in
    let (file, file_decoded, e2) =
      bind-eq-ok
        (ok_or (decode_record_size (as_i8 file_raw) cluster)
          (invalid_file_record_size (as_i8 file_raw)))
        _ e1 in
    let (index_raw, at_index, e3) = bind-eq-ok (or_panic (get_elem? bytes 0x44)) _ e2 in
    let (index, index_decoded, e4) =
      bind-eq-ok
        (ok_or (decode_record_size (as_i8 index_raw) cluster)
          (invalid_index_record_size (as_i8 index_raw)))
        _ e3 in
    let same = ok-injective e4 in
    (
      subst (IsRecordSize cluster) (ap (λ t. t.0) same)
          (decode_record_size-IsRecordSize file_raw cluster (ok_or-inv _ file_decoded)),
      subst (IsRecordSize cluster) (ap (λ t. t.1) same)
          (decode_record_size-IsRecordSize index_raw cluster (ok_or-inv _ index_decoded)),
    )

-- A sector that is accepted has a sector size and a cluster size that are powers of two, and its
-- two record sizes are a number of clusters from 1 to 127 or a power of two from 2 to 2 ^ 31.
pub parse_boot_sector-IsValid :
    (bytes : Bytes) (sector : NtfsBootSector) → parse_boot_sector bytes ≡ ok sector → IsValid sector
unfolding parse_boot_sector cluster_size_bytes
parse_boot_sector-IsValid bytes sector e =
    let (r, at_r, e1) = bind-eq-ok (parse_geometry bytes) _ e in
    let (sizes, at_sizes, e2) = bind-eq-ok (parse_record_sizes bytes r.2) _ e1 in
    let (total, _, e3) = bind-eq-ok (read_u64_le bytes 0x28) _ e2 in
    let (mft, _, e4) = bind-eq-ok (read_u64_le bytes 0x30) _ e3 in
    let (mirror, _, e5) = bind-eq-ok (read_u64_le bytes 0x38) _ e4 in
    let (serial, _, e6) = bind-eq-ok (read_u64_le bytes 0x48) _ e5 in
    let g = parse_geometry-Geometry bytes at_r in
    let (file, index) = parse_record_sizes-IsRecordSize bytes r.2 at_sizes in
    subst IsValid (ok-injective e6) (record {
      sector_size = is_power_of_two_sound 16 r.0 g.sector_power;
      cluster_size = is_power_of_two_sound 8 r.1 g.cluster_power;
      file_record = subst (λ c. IsRecordSize c sizes.0) g.product file;
      index_record = subst (λ c. IsRecordSize c sizes.1) g.product index;
    })
