-- ===== src/Ngmap/Report/Config.antt =====
-- `cmd_set_config` of bin/ngmap.py: a write to the config map that passed every check.
use Prim.Native.String.{◌++◌ as ◌<>◌}
use nodeguard.Prelude.{
  ℕ, ◌^◌, ◌≤◌, ◌<◌, ◌≡◌, ◌≢◌, sym, ap, ◌∙◌, false, Option, none, some, List, String, ◌⊎◌, inl, inr,
  arith, Option-cases,
}
use nodeguard.Prelude.Int.{ℤ, pos, negsuc}
use nodeguard.Ngmap.Pack.{Bytes, le_bytes, pack_u32, pack_u64}
use nodeguard.Ngmap.Hex.{bytes_to_args}
use nodeguard.Ngmap.Exec.{
  Exec, ok, Refusal, struct_error, port_out_of_range, slot_out_of_range, value_out_of_range, die,
}
use nodeguard.Ngmap.Exec.Inversion.{>>=-eq-ok, die_if-ok, or_raise-some}
use nodeguard.Ngmap.Host.{Host, Laws}
use nodeguard.Ngmap.Maps.{pin}
use nodeguard.Ngmap.Maps.Writes.{update_map-holds}
use nodeguard.Ngmap.Block.{u64_max}
use nodeguard.Ngmap.Report.{u32_max, in_range, bad_port, write_config, cmd_set_config}

pack_u32-some : (n : ℕ) (b : Bytes) → pack_u32 n ≡ some b → b ≡ le_bytes 4 n
unfolding pack_u32
pack_u32-some n b e = ground (arith, e)

pack_u64-some : (n : ℕ) (b : Bytes) → pack_u64 n ≡ some b → b ≡ le_bytes 8 n
unfolding pack_u64
pack_u64-some n b e = ground (arith, e)

in_range-some : (most n : ℕ) (i : ℤ) → in_range most i ≡ some n → (i ≡ pos n) × (n ≤ most)
unfolding in_range
in_range-some most n (pos m) e = ground (arith, e)
in_range-some most n (negsuc m) e = ground (arith, e)

bad_port-false :
    (slot value : ℕ) → bad_port slot value ≡ false → (slot ≢ 0) ⊎ (1 ≤ value × value ≤ 65535)
bad_port-false slot value e = ground (arith, e)

die-raises : {W A : Type 0} {a : A} (r : Refusal) (w : W) → (die r w).0 ≢ ok a
unfolding die
die-raises r w e = cc

module _ (h : Host) (holds : h.World → String → List String → Option (List String))
    (laws : Laws h holds) where
  -- What a successful set-config means: the arguments fit, and the slot holds the value.
  pub record Configured (slot value : ℤ) (w : h.World) : Type 0 where
    pub n : ℕ
    pub m : ℕ
    pub is_slot : slot ≡ pos n
    pub is_value : value ≡ pos m
    pub slot_fits : n < 2 ^ 32
    pub value_fits : m < 2 ^ 64
    pub is_port : (n ≢ 0) ⊎ (1 ≤ m × m ≤ 65535)
    pub stored :
        holds (cmd_set_config h slot value w).1 (pin <> "/config") (bytes_to_args (le_bytes 4 n))
        ≡ some (bytes_to_args (le_bytes 8 m))

  renamed :
      (u u' : h.World) (k k' v v' : Bytes)
      → u ≡ u'
      → k ≡ k'
      → v ≡ v'
      → holds u' (pin <> "/config") (bytes_to_args k) ≡ some (bytes_to_args v)
      → holds u (pin <> "/config") (bytes_to_args k') ≡ some (bytes_to_args v')
  renamed u u' k k' v v' eu ek ev e = cc

  written :
      (n m : ℕ) (w : h.World)
      → (write_config h n m w).0 ≡ ok tt
      → (bad_port n m ≡ false)
        × (holds (write_config h n m w).1 (pin <> "/config") (bytes_to_args (le_bytes 4 n))
            ≡ some (bytes_to_args (le_bytes 8 m)))
  unfolding write_config
  written n m w e =
      let p = >>=-eq-ok _ _ tt w e in
      let q = >>=-eq-ok _ _ tt _ p.second in
      let r = >>=-eq-ok _ _ tt _ q.second in
      let k = pack_u32-some n q.value (or_raise-some struct_error (pack_u32 n) _ q.value q.first) in
      let v = pack_u64-some m r.value (or_raise-some struct_error (pack_u64 m) _ r.value r.first) in
      (
        die_if-ok (bad_port n m) port_out_of_range w p.first,
        renamed _ _ _ _ _ _ (p.state ∙ (q.state ∙ r.state)) k v
            (update_map-holds h holds laws (pin <> "/config") q.value r.value _ r.second),
      )

  on_value : ℕ → Option ℕ → Exec h.World (Unit {0})
  on_value n o = elim o [ none ↦ die value_out_of_range | some m ↦ write_config h n m ]

  on_slot : ℤ → Option ℕ → Exec h.World (Unit {0})
  on_slot value o = elim o [
    | none ↦ die slot_out_of_range
    | some n ↦ on_value n (in_range u64_max value)
  ]

  module _ (slot value : ℤ) where
    by_slot : in_range u32_max slot ≡ none → cmd_set_config h slot value ≡ die slot_out_of_range
    unfolding cmd_set_config on_slot on_value
    by_slot e = ap (on_slot value) e

    by_value :
        (n : ℕ)
        → in_range u32_max slot ≡ some n
        → in_range u64_max value ≡ none
        → cmd_set_config h slot value ≡ die value_out_of_range
    unfolding cmd_set_config on_slot on_value
    by_value n s e = ap (on_slot value) s ∙ ap (on_value n) e

    by_both :
        (n m : ℕ)
        → in_range u32_max slot ≡ some n
        → in_range u64_max value ≡ some m
        → cmd_set_config h slot value ≡ write_config h n m
    unfolding cmd_set_config on_slot on_value
    by_both n m s e = ap (on_slot value) s ∙ ap (on_value n) e

  -- A set-config that succeeds was given a slot of 32 bits and a value of 64 bits, a port from 1 to
  -- 65535 if the slot is 0, and leaves that value in that slot of the config map.
  pub cmd_set_config-Configured :
      (slot value : ℤ) (w : h.World)
      → (cmd_set_config h slot value w).0 ≡ ok tt
      → Configured slot value w
  cmd_set_config-Configured slot value w e = elim (Option-cases (in_range u32_max slot)) [
    | inl n0 ↦
        absurd
          (die-raises slot_out_of_range w (ap (λ c. (c w).0) (sym (by_slot slot value n0)) ∙ e))
    | inr (n, slot_ok) ↦ elim (Option-cases (in_range u64_max value)) [
      | inl n0 ↦ absurd (
          die-raises value_out_of_range w
            (ap (λ c. (c w).0) (sym (by_value slot value n slot_ok n0)) ∙ e))
      | inr (m, value_ok) ↦
          let same = by_both slot value n m slot_ok value_ok in
          let done : (write_config h n m w).0 ≡ ok tt = ap (λ c. (c w).0) (sym same) ∙ e in
          let (fine, stored) = written n m w done in
          let (is_slot, slot_fits) = in_range-some u32_max n slot slot_ok in
          let (is_value, value_fits) = in_range-some u64_max m value value_ok in
          record {
            n = n;
            m = m;
            is_slot = is_slot;
            is_value = is_value;
            slot_fits = omega (arith, slot_fits);
            value_fits = omega (arith, value_fits);
            is_port = bad_port-false n m fine;
            stored =
                ap (λ c. holds (c w).1 (pin <> "/config") (bytes_to_args (le_bytes 4 n))) same
                ∙ stored;
          }
    ]
  ]
