-- ===== src/Context/Operation.antt =====
-- OperationContext of src/al_context.cpp: its three constructors and what they test. A pointer to a
-- context is the context's uid; a member that a constructor leaves uninitialised is `none`.
pub mod Modes
use imas_core.Prelude.{
  ℕ, suc, Bool, not, ◌&&◌, List, [], Option, none, some, Text, is_empty, Exception, Result, ok,
  ◌>>=◌, ◌>>◌, throw_if,
}
use imas_core.Prelude.Int.{ℤ, pos, ◌-ℤ◌}
use imas_core.Context.Const.{
  op_range_0, op_access_0, op_interp_0, global_op, slice_op, timerange_op, read_op,
  undefined_interp, linear_interp, op_range_list, op_access_list, op_interp_list, has_at, same_int,
}

module _ (Double : Type 0) where
  pub record TimeRange : Type 0 where
    pub tmin : Option Double
    pub tmax : Option Double
    pub dtime : List Double
    pub interpolation_method : Option ℤ

  pub record OperationContext : Type 0 where
    pub pctx : ℕ
    pub dataobjectname : Text
    pub datapath : Text
    pub accessmode : ℤ
    pub rangemode : ℤ
    pub time : Option Double
    pub interpmode : Option ℤ
    pub time_range : TimeRange
    pub uid : ℕ

-- `list.at(mode - mode_0)`, whose std::out_of_range becomes an ALContextException.
unfoldable pub check_mode : List ℤ → ℕ → ℤ → Result (Unit {0})
unfolding ◌-ℤ◌
check_mode list mode_0 mode = throw_if (not (has_at list (mode -ℤ pos mode_0))) Exception.al_context

module _ {Double : Type 0} where
  abbrev pub no_range : TimeRange Double
  no_range = record { tmin = none; tmax = none; dtime = []; interpolation_method = none }

  -- The constructor for an operation on all slices, or on the part at `datapath`.
  unfoldable pub global_operation :
      ℕ → Double → ℕ → Text → Text → ℤ → Result (OperationContext Double × ℕ)
  unfolding check_mode
  global_operation sid undefined_time ctx dataobject datapath access = do
    check_mode op_access_list op_access_0 access
    ok (
      record {
        pctx = ctx;
        dataobjectname = dataobject;
        datapath = datapath;
        accessmode = access;
        rangemode = global_op;
        time = some undefined_time;
        interpmode = some undefined_interp;
        time_range = record no_range { interpolation_method = some linear_interp };
        uid = suc sid;
      },
      suc sid,
    )

  -- The constructor with a range mode, a time and an interpolation mode.
  unfoldable pub slice_operation :
      ℕ → ℕ → Text → ℤ → ℤ → Double → ℤ → Result (OperationContext Double × ℕ)
  unfolding check_mode
  slice_operation sid ctx dataobject access range t interp = do
    check_mode op_range_list op_range_0 range
    check_mode op_access_list op_access_0 access
    check_mode op_interp_list op_interp_0 interp
    throw_if
        (same_int range slice_op && same_int access read_op && same_int interp undefined_interp)
        Exception.al_context
    ok (
      record {
        pctx = ctx;
        dataobjectname = dataobject;
        datapath = [];
        accessmode = access;
        rangemode = range;
        time = some t;
        interpmode = some interp;
        time_range = no_range;
        uid = suc sid;
      },
      suc sid,
    )

  -- The constructor with a time range. The interpolation mode is not looked up in its list, and the range
  -- mode that is kept is always the one of a time range.
  unfoldable pub timerange_operation :
      ℕ
      → ℕ
      → Text
      → ℤ
      → ℤ
      → Double
      → Double
      → List Double
      → ℤ
      → Result (OperationContext Double × ℕ)
  unfolding check_mode
  timerange_operation sid ctx dataobject access range tmin tmax dtime interp = do
    check_mode op_range_list op_range_0 range
    check_mode op_access_list op_access_0 access
    throw_if
        (same_int range timerange_op && not (is_empty dtime) && same_int interp undefined_interp)
        Exception.al_context
    ok (
      record {
        pctx = ctx;
        dataobjectname = dataobject;
        datapath = [];
        accessmode = access;
        rangemode = timerange_op;
        time = none;
        interpmode = none;
        time_range = record {
          tmin = some tmin;
          tmax = some tmax;
          dtime = dtime;
          interpolation_method = some interp;
        };
        uid = suc sid;
      },
      suc sid,
    )
