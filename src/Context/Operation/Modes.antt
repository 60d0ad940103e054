-- ===== src/Context/Operation/Modes.antt =====
-- The modes of the operations that the constructors of OperationContext accept.
use imas_core.Prelude.{
  ℕ, suc, Bool, true, false, not, ◌&&◌, List, some, Text, is_empty, Result, ok, throw, ◌≡◌, refl,
  arith, inl, inr, Bool-cases,
}
use imas_core.Prelude.Int.{ℤ, pos, ◌≤ℤ◌, ◌-ℤ◌}
use imas_core.Context.Const.{
  slice_op, timerange_op, read_op, undefined_interp, same_int, has_at, op_range_list,
  op_access_list, op_interp_list,
}
use imas_core.Context.Operation.{
  OperationContext, check_mode, global_operation, slice_operation, timerange_operation,
}

-- Whether a mode is one of the `n` behind the first.
abbrev pub Within : ℕ → ℤ → ℕ → Type 0
Within low mode high = (pos low ≤ℤ mode) × (mode ≤ℤ pos high)

module _ {Double : Type 0} where
  -- The range is one of three, the access one of three, and a slice is read with a known interpolation.
  pub record HasModes (c : OperationContext Double) : Type 0 where
    pub range : Within 20 c.rangemode 22
    pub access : Within 30 c.accessmode 32
    pub reads :
        c.rangemode ≡ slice_op
        → c.accessmode ≡ read_op
        → (interp : ℤ) × (c.interpmode ≡ some interp) × Within 1 interp 3

  -- What a constructor made: an operation with valid modes under the next uid, on its data entry.
  abbrev pub Made : ℕ → ℕ → Result (OperationContext Double × ℕ) → Type 0
  Made sid ctx (ok (c, after)) = (c.uid ≡ suc sid) × (after ≡ suc sid) × (c.pctx ≡ ctx) × HasModes c
  Made sid ctx (throw e) = Unit

range-Within : (mode : ℤ) → not (has_at op_range_list (mode -ℤ pos 20)) ≡ false → Within 20 mode 22
unfolding ◌-ℤ◌
range-Within mode h = ground (arith, h)

access-Within :
    (mode : ℤ) → not (has_at op_access_list (mode -ℤ pos 30)) ≡ false → Within 30 mode 32
unfolding ◌-ℤ◌
access-Within mode h = ground (arith, h)

interp-Within :
    (mode : ℤ)
    → not (has_at op_interp_list (mode -ℤ pos 0)) ≡ false
    → same_int mode undefined_interp ≡ false
    → Within 1 mode 3
unfolding ◌-ℤ◌
interp-Within mode h k = ground (arith, h, k)

same_int_eq : (a b : ℤ) → a ≡ b → same_int a b ≡ true
same_int_eq a b h = ground (arith, h)

abbrev reads_undefined : ℤ → ℤ → ℤ → Bool
reads_undefined range access interp =
    same_int range slice_op && same_int access read_op && same_int interp undefined_interp

abbrev samples_undefined {ℓ} : {A : Type ℓ} → ℤ → List A → ℤ → Bool
samples_undefined range dtime interp =
    same_int range timerange_op && not (is_empty dtime) && same_int interp undefined_interp

reads_interp :
    (range access interp : ℤ)
    → not (has_at op_interp_list (interp -ℤ pos 0)) ≡ false
    → reads_undefined range access interp ≡ false
    → range ≡ slice_op
    → access ≡ read_op
    → (i : ℤ) × (some interp ≡ some i) × Within 1 i 3
reads_interp range access interp i e h k = (
  interp,
  refl,
  interp-Within interp i
      (ground (arith, e, same_int_eq range slice_op h, same_int_eq access read_op k)),
)

module _ {Double : Type 0} where
  pub global_operation-Made :
      (sid ctx : ℕ) (undefined_time : Double) (dataobject datapath : Text) (access : ℤ)
      → Made sid ctx (global_operation sid undefined_time ctx dataobject datapath access)
  unfolding global_operation check_mode
  global_operation-Made sid ctx undefined_time dataobject datapath access =
      elim (Bool-cases (not (has_at op_access_list (access -ℤ pos 30)))) [
        | inl e ↦ rw e tt
        | inr e ↦ rw e (
          refl,
          refl,
          refl,
          record {
            range = ground arith;
            access = access-Within access e;
            reads = λ h k. ground (arith, h);
          },
        )
      ]

  pub slice_operation-Made :
      (sid ctx : ℕ) (dataobject : Text) (access range interp : ℤ) (t : Double)
      → Made sid ctx (slice_operation sid ctx dataobject access range t interp)
  unfolding slice_operation check_mode
  slice_operation-Made sid ctx dataobject access range interp t =
      elim (Bool-cases (not (has_at op_range_list (range -ℤ pos 20)))) [
        | inl e ↦ rw e tt
        | inr r ↦ elim (Bool-cases (not (has_at op_access_list (access -ℤ pos 30)))) [
          | inl e ↦ rw (r, e) tt
          | inr a ↦ elim (Bool-cases (not (has_at op_interp_list (interp -ℤ pos 0)))) [
            | inl e ↦ rw (r, a, e) tt
            | inr i ↦ elim (Bool-cases (reads_undefined range access interp)) [
              | inl e ↦ rw (r, a, i, e) tt
              | inr e ↦
                  rw (r, a, i, e)
                    (
                      refl,
                      refl,
                      refl,
                      record {
                        range = range-Within range r;
                        access = access-Within access a;
                        reads = λ h k. reads_interp range access interp i e h k;
                      },
                    )
            ]
          ]
        ]
      ]

  pub timerange_operation-Made :
      (sid ctx : ℕ) (dataobject : Text) (access range interp : ℤ) (tmin tmax : Double)
      (dtime : List Double)
      → Made sid ctx (timerange_operation sid ctx dataobject access range tmin tmax dtime interp)
  unfolding timerange_operation check_mode
  timerange_operation-Made sid ctx dataobject access range interp tmin tmax dtime =
      elim (Bool-cases (not (has_at op_range_list (range -ℤ pos 20)))) [
        | inl e ↦ rw e tt
        | inr r ↦ elim (Bool-cases (not (has_at op_access_list (access -ℤ pos 30)))) [
          | inl e ↦ rw (r, e) tt
          | inr a ↦ elim (Bool-cases (samples_undefined range dtime interp)) [
            | inl e ↦ rw (r, a, e) tt
            | inr e ↦
                rw (r, a, e)
                  (
                    refl,
                    refl,
                    refl,
                    record {
                      range = ground arith;
                      access = access-Within access a;
                      reads = λ h k. ground (arith, h);
                    },
                  )
          ]
        ]
      ]
