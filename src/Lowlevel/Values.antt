-- ===== src/Lowlevel/Values.antt =====
-- The values that src/al_lowlevel.cpp hands to a client: setValue, setDefaultValue, convertData,
-- setConvertedValue, and the test of data_has_non_zero_shape. A buffer is the list of its elements.
pub mod Defaults
use imas_core.Prelude.{
  ℕ, zero, suc, ◌*◌, Bool, true, false, not, ◌&&◌, ◌||◌, List, [], ◌∷◌, Option, none, some,
  is_empty, length, get_or, map, ltb, ◌==◌, if◌then◌else◌, Exception,
}
use imas_core.Prelude.Int.{ℤ, pos, negsuc}
use imas_core.Lowlevel.Outcome.{Outcome, ◌>>=◌}
use imas_core.Context.Const.{char_data, integer_data, double_data, complex_data, same_int}

-- What the code takes of the numbers of the machine: EMPTY_DOUBLE, equality, and the conversions of
-- the language. A character is its signed value.
pub record Numbers : Type 1 where
  pub Double : Type 0
  pub empty_double : Double
  pub same_double : Double → Double → Bool
  pub int_to_double : ℤ → Double
  pub int_to_char : ℤ → ℤ
  pub double_to_int : Double → ℤ
  pub double_to_char : Double → ℤ
  pub zero_double : Double

module _ (N : Numbers) where
  pub data Element : Type 0 where
    char : ℤ → Element
    integer : ℤ → Element
    double : N.Double → Element
    complex : N.Double → N.Double → Element

  -- The client's variable: its own memory for a scalar, a pointer to a buffer otherwise.
  pub data Variable : Type 0 where
    scalar : Element → Variable
    buffer : Option (List Element) → Variable

abbrev pub empty_int : ℤ
empty_int = negsuc 999999998

abbrev pub empty_char : ℤ
empty_char = pos 0

-- The loop that clears the first `dim` sizes.
unfoldable pub clear_sizes : ℕ → List ℕ → List ℕ
clear_sizes zero size = size
clear_sizes (suc dim) [] = []
clear_sizes (suc dim) (n ∷ size) = 0 ∷ clear_sizes dim size

abbrev pub known_type : ℤ → Bool
known_type type =
    same_int type char_data
    || same_int type integer_data
    || same_int type double_data
    || same_int type complex_data

unfoldable pub all_nonzero : ℕ → List ℕ → Bool
all_nonzero zero size = true
all_nonzero (suc dim) [] = true
all_nonzero (suc dim) (n ∷ size) = not (n == 0) && all_nonzero dim size

abbrev pub is_string_list : ℤ → ℕ → Bool
is_string_list datatype dim = same_int datatype char_data && ltb 1 dim

module _ {N : Numbers} where
  -- The element that stands for no value, of a type that is known.
  unfoldable pub default_element : ℤ → Outcome (Element N)
  default_element type =
      if same_int type char_data
      then Outcome.returns (Element.char empty_char)
      else if same_int type integer_data
      then Outcome.returns (Element.integer empty_int)
      else if same_int type double_data
      then Outcome.returns (Element.double N.empty_double)
      else if same_int type complex_data
      then Outcome.returns (Element.complex N.empty_double N.empty_double)
      else Outcome.throws Exception.al_lowlevel

  -- Lowlevel::setDefaultValue: the variable and the sizes behind it.
  unfoldable pub set_default_value : ℤ → ℕ → List ℕ → Outcome (Variable N × List ℕ)
  unfolding default_element clear_sizes
  set_default_value type zero size = do
    element ← default_element type
    Outcome.returns (Variable.scalar element, size)
  set_default_value type (suc dim) size =
      Outcome.returns (Variable.buffer none, clear_sizes (suc dim) size)

  -- Lowlevel::setValue: a scalar is copied out of the buffer.
  unfoldable pub set_value : List (Element N) → ℤ → ℕ → Outcome (Variable N)
  set_value (element ∷ data_) type zero =
      if known_type type
      then Outcome.returns (Variable.scalar element)
      else Outcome.throws Exception.al_lowlevel
  set_value [] type zero = Outcome.crashes
  set_value data_ type (suc dim) = Outcome.returns (Variable.buffer (some data_))

  -- One element on its way to the type `desttype`, as `std::copy_n` assigns it. Nothing is assigned from a
  -- complex number, which is not converted.
  unfoldable pub convert_element : ℤ → Element N → Element N
  convert_element desttype (Element.char c) =
      if same_int desttype char_data
      then Element.char c
      else if same_int desttype integer_data
      then Element.integer c
      else if same_int desttype double_data
      then Element.double (N.int_to_double c)
      else Element.complex (N.int_to_double c) N.zero_double
  convert_element desttype (Element.integer i) =
      if same_int desttype char_data
      then Element.char (N.int_to_char i)
      else if same_int desttype integer_data
      then Element.integer i
      else if same_int desttype double_data
      then Element.double (N.int_to_double i)
      else Element.complex (N.int_to_double i) N.zero_double
  convert_element desttype (Element.double d) =
      if same_int desttype char_data
      then Element.char (N.double_to_char d)
      else if same_int desttype integer_data
      then Element.integer (N.double_to_int d)
      else if same_int desttype double_data
      then Element.double d
      else Element.complex d N.zero_double
  convert_element desttype (Element.complex re im) = Element.complex re im

  -- Lowlevel::convertData.
  unfoldable pub convert_data : List (Element N) → ℤ → Outcome (List (Element N))
  unfolding convert_element
  convert_data data_ desttype =
      if known_type desttype
      then Outcome.returns (map (convert_element desttype) data_)
      else Outcome.throws Exception.al_lowlevel

  -- Lowlevel::setConvertedValue: a source of complex numbers gives the default value.
  unfoldable pub set_converted_value :
      List (Element N) → ℤ → ℕ → List ℕ → ℤ → Outcome (Variable N × List ℕ)
  unfolding convert_data set_value set_default_value
  set_converted_value data_ srctype dim size desttype =
      if same_int srctype complex_data then set_default_value desttype dim size else (do
        converted ← convert_data data_ desttype
        variable ← set_value converted desttype dim
        Outcome.returns (variable, size))

  -- Whether a scalar of the type `datatype` is not the one that stands for no value; a character is not
  -- looked at.
  abbrev pub is_value : ℤ → Element N → Bool
  is_value datatype (Element.integer i) =
      not (same_int datatype integer_data && same_int i empty_int)
  is_value datatype (Element.double d) =
      not (same_int datatype double_data && N.same_double d N.empty_double)
  is_value datatype (Element.complex re im) = not (
      same_int datatype complex_data
      && (N.same_double re N.empty_double && N.same_double im N.empty_double))
  is_value datatype (Element.char c) = true

  -- Lowlevel::data_has_non_zero_shape, on NULL data, on the memory of a scalar, which holds an element, and
  -- on a buffer with its sizes.
  unfoldable pub data_has_non_zero_shape :
      ℤ → Option (List (Element N)) → ℕ → Option (List ℕ) → Bool
  unfolding all_nonzero
  data_has_non_zero_shape datatype none dim size = false
  data_has_non_zero_shape datatype (some []) zero size = true
  data_has_non_zero_shape datatype (some (element ∷ data_)) zero size = is_value datatype element
  data_has_non_zero_shape datatype (some data_) (suc dim) none = false
  data_has_non_zero_shape datatype (some data_) (suc dim) (some size) =
      is_string_list datatype (suc dim) || all_nonzero (suc dim) size
