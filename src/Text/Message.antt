-- ===== src/Text/Message.antt =====
-- src/message_print.c: a message printed with its fields. A message is what the descriptors and the
-- memory behind them say; which bytes are printable (`isprint`) is a parameter. `none` is a fault.
use Prim.Native.String.{String}
use tangent.Base.{
  ℕ, zero, suc, Bool, true, false, ◌&&◌, not, Option, none, some, List, [], ◌∷◌, ◌++◌, map, length,
  if◌then◌else◌,
}
use tangent.Base.Int.{ℤ, pos}
use tangent.Base.Bind.{◌>>=◌}
use tangent.Text.Pieces.{lit, dec, hex2, real, str, chr, Out}

-- The scalar types print alike but for their names; `a_message` and `an_enum` have names of their own.
pub data FieldType : Type 0 where
  int32 sint32 sfixed32 int64 sint64 sfixed64 uint32 fixed32 uint64 fixed64 : FieldType
  float double bool string bytes : FieldType
  an_enum a_message : List ℕ → FieldType

pub data WireType : Type 0 where
  varint bit64 length_prefixed start_group end_group bit32 : WireType

pub record UnknownField : Type 0 where
  pub wire_type : WireType
  pub len : ℕ

-- A field is its number, its type, its name and what is behind it. An enum value without a descriptor
-- is `no_such_enum`.
mutual
  pub data Value : Type 0 where
    number : ℤ → Value
    floating : ℕ → Value
    boolean : Bool → Value
    text : List ℕ → Value
    binary : List ℕ → Value
    enum_value : ℤ → List ℕ → Value
    no_such_enum : Value
    submessage : Body → Value

  pub data Contents : Type 0 where
    required : Value → Contents
    optional : Optional → Contents
    repeated : Values → Contents

  pub data Optional : Type 0 where
    not_set : Optional
    at_default : Optional
    set_to : Value → Optional

  pub data Values : Type 0 where
    no_values : Values
    value_cons : Value → Values → Values

  pub data Fields : Type 0 where
    no_fields : Fields
    field_cons : ℕ → FieldType → List ℕ → Contents → Fields → Fields

  -- The size, the fields, and the fields that the descriptor does not know.
  pub data Body : Type 0 where
    body : ℕ → Fields → List UnknownField → Body

unfoldable pub print_tabs : ℕ → Out
print_tabs zero = []
print_tabs (suc tabs) = lit "\t" ∷ print_tabs tabs

unfoldable pub print_nl : ℕ → Out
print_nl tabs = lit "\n" ∷ print_tabs tabs

abbrev pub type_name : FieldType → Out
type_name int32 = lit "int32 " ∷ []
type_name sint32 = lit "sint32 " ∷ []
type_name sfixed32 = lit "sfixed32 " ∷ []
type_name int64 = lit "int64 " ∷ []
type_name sint64 = lit "sint64 " ∷ []
type_name sfixed64 = lit "sfixed64 " ∷ []
type_name uint32 = lit "uint32 " ∷ []
type_name fixed32 = lit "fixed32 " ∷ []
type_name uint64 = lit "uint64 " ∷ []
type_name fixed64 = lit "fixed64 " ∷ []
type_name float = lit "float " ∷ []
type_name double = lit "double " ∷ []
type_name bool = lit "bool " ∷ []
type_name string = lit "string " ∷ []
type_name bytes = lit "bytes " ∷ []
type_name (an_enum name) = str name ∷ lit " " ∷ []
type_name (a_message name) = str name ∷ lit " " ∷ []

unfoldable pub type_name_print : FieldType → List ℕ → Out
type_name_print type name = type_name type ++ (str name ∷ [])

abbrev pub wire_type_name : WireType → String
wire_type_name varint = "<varint>"
wire_type_name bit64 = "<64bit>"
wire_type_name length_prefixed = "<length_prefixed>"
wire_type_name start_group = "<start_group>"
wire_type_name end_group = "<end_group>"
wire_type_name bit32 = "<32bit>"

unfoldable pub unknown_field_print : UnknownField → Out
unknown_field_print field =
    lit (wire_type_name field.wire_type) ∷ lit " [" ∷ dec (pos field.len) ∷ lit "]" ∷ []

-- The loop over the unknown fields.
unfoldable pub unknown_fields_print : ℕ → List UnknownField → Out
unknown_fields_print tabs [] = []
unknown_fields_print tabs (u ∷ us) =
    (lit "unknown " ∷ unknown_field_print u) ++ print_nl tabs ++ unknown_fields_print tabs us

abbrev pub is_empty : List ℕ → Bool
is_empty [] = true
is_empty (b ∷ bs) = false

abbrev pub spaced : List ℕ → Out
spaced [] = []
spaced (b ∷ bs) = hex2 b ∷ lit " " ∷ spaced bs

abbrev pub all_printable : (ℕ → Bool) → List ℕ → Bool
all_printable isprint [] = true
all_printable isprint (b ∷ bs) = isprint b && all_printable isprint bs

-- The case of PROTOBUF_C_TYPE_BYTES.
unfoldable pub bytes_print : (ℕ → Bool) → List ℕ → Out
bytes_print isprint data_bytes =
    (lit "[" ∷ dec (pos (length data_bytes)) ∷ lit "] " ∷ spaced data_bytes)
    ++ (if all_printable isprint data_bytes && not (is_empty data_bytes)
        then (lit "(\"" ∷ map chr data_bytes) ++ (lit "\")" ∷ [])
        else [])

abbrev pub truth : Bool → String
truth true = "true"
truth false = "false"

-- A type other than a message puts braces around its repeated values.
abbrev pub is_message : FieldType → Bool
is_message (a_message name) = true
is_message _ = false

-- The number of values, for `[%zu] `.
abbrev pub count : Values → ℕ
count no_values = 0
count (value_cons v vs) = suc (count vs)

abbrev pub braced : FieldType → ℕ → Out → Out
braced type zero out = []
braced type (suc n) out = if is_message type then out else (lit "{" ∷ out) ++ (lit "}" ∷ [])

-- Behind a value, with `left` of them to come.
abbrev pub comma : Bool → ℕ → Out
comma messages zero = []
comma messages (suc left) = if messages then [] else lit ", " ∷ []

-- The values, printed as `out`, behind their number.
unfoldable pub repeated_field_print : FieldType → ℕ → Out → Out
repeated_field_print type n out = lit "[" ∷ dec (pos n) ∷ lit "] " ∷ braced type n out

-- A fault is the read of a default value as a pointer to it, or of the name of an enum value that is
-- not there.
unfoldable mutual
  pub required_field_print : (ℕ → Bool) → ℕ → Value → Option Out
  required_field_print isprint tabs (number n) = some (dec n ∷ [])
  required_field_print isprint tabs (floating bits) = some (real bits ∷ [])
  required_field_print isprint tabs (boolean b) = some (lit (truth b) ∷ [])
  required_field_print isprint tabs (text s) =
      some (lit "[" ∷ dec (pos (length s)) ∷ lit "] \"" ∷ str s ∷ lit "\"" ∷ [])
  required_field_print isprint tabs (binary data_bytes) = some (bytes_print isprint data_bytes)
  required_field_print isprint tabs (enum_value n name) =
      some (dec n ∷ lit " (" ∷ str name ∷ lit ")" ∷ [])
  required_field_print isprint tabs no_such_enum = none
  required_field_print isprint tabs (submessage b) =
      message_body_print isprint tabs b >>= (λ out. some (lit "\n" ∷ out))

  -- The three labels, with the name of the label, the type and the name of the field.
  pub contents_print : (ℕ → Bool) → ℕ → FieldType → List ℕ → Contents → Option Out
  contents_print isprint tabs type name (required v) =
      required_field_print isprint tabs v
      >>= (λ out. some ((lit "required " ∷ type_name_print type name) ++ (lit " = " ∷ out)))
  contents_print isprint tabs type name (optional o) =
      optional_field_print isprint tabs o
      >>= (λ out. some ((lit "optional " ∷ type_name_print type name) ++ (lit " = " ∷ out)))
  contents_print isprint tabs type name (repeated vs) =
      values_print isprint tabs (is_message type) vs >>= (λ out. some (
        (lit "repeated " ∷ type_name_print type name)
        ++ (lit " = " ∷ repeated_field_print type (count vs) out)))

  pub optional_field_print : (ℕ → Bool) → ℕ → Optional → Option Out
  optional_field_print isprint tabs not_set = some (lit "<none>" ∷ [])
  optional_field_print isprint tabs at_default = none
  optional_field_print isprint tabs (set_to v) = required_field_print isprint tabs v

  -- The values one behind the other, with commas between them unless they are messages.
  pub values_print : (ℕ → Bool) → ℕ → Bool → Values → Option Out
  values_print isprint tabs messages no_values = some []
  values_print isprint tabs messages (value_cons v vs) =
      required_field_print isprint tabs v >>= (λ out.
        values_print isprint tabs messages vs
        >>= (λ rest. some (out ++ comma messages (count vs) ++ rest)))

  pub fields_print : (ℕ → Bool) → ℕ → Fields → Option Out
  fields_print isprint tabs no_fields = some []
  fields_print isprint tabs (field_cons id type name c fs) =
      contents_print isprint tabs type name c >>= (λ out.
        fields_print isprint tabs fs
        >>= (λ rest. some (print_nl tabs ++ (dec (pos id) ∷ lit ": " ∷ out) ++ rest)))

  pub message_body_print : (ℕ → Bool) → ℕ → Body → Option Out
  message_body_print isprint tabs (body size fs us) = fields_print isprint (suc tabs) fs >>= (λ out.
      some (
        print_tabs tabs
        ++ (lit "{ [" ∷ dec (pos size) ∷ lit "]" ∷ out)
        ++ unknown_fields_print (suc tabs) us
        ++ print_nl tabs
        ++ (lit "}" ∷ [])))

unfoldable pub protobuf_c_message_print : (ℕ → Bool) → List ℕ → Body → Option Out
protobuf_c_message_print isprint name b =
    message_body_print isprint 0 b >>= (λ out. some (str name ∷ lit " " ∷ out))
