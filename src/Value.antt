-- ===== src/Value.antt =====
-- The dynamic types of Go values that the program reads, writes, caches and converts, as one data
-- type: `interface{}` in internal/opcua/client.go and internal/store/value_encoding.go.
-- A float is its IEEE 754 bit pattern, a `time.Time` its nanoseconds since the Unix epoch, a
-- `*ua.GUID` its sixteen bytes.
use opcua_mcp.Prelude.{ℕ, ◌<◌, ◌^◌, String, Bool, List, Option, none, some, suc}
use opcua_mcp.Prelude.Int.{ℤ, pos, ◌≤ℤ◌, neg}

pub data GoType : Type 0 where
  go_bool go_int8 go_int16 go_int32 go_int64 go_uint8 go_uint16 go_uint32 go_uint64 : GoType
  go_float32 go_float64 go_string go_time go_guid go_bytes : GoType

mutual
  pub data Value : Type 0 where
    nil : Value
    bool : Bool → Value
    int int8 int16 int32 int64 : ℤ → Value
    uint uint8 uint16 uint32 uint64 : ℕ → Value
    float32 float64 : ℕ → Value
    string : String → Value
    time : ℤ → Value
    bytes : List ℕ → Value
    guid : List ℕ → Value
    -- []interface{}
    array : Values → Value
    -- a slice with a static element type, as `[]int32`
    slice : GoType → Values → Value
    -- a value of any other type, by a name
    opaque : ℕ → Value

  pub data Values : Type 0 where
    done : Values
    item : Value → Values → Values

-- The static type of a scalar.
abbrev pub type_of : Value → Option GoType
type_of (bool b) = some go_bool
type_of (int8 z) = some go_int8
type_of (int16 z) = some go_int16
type_of (int32 z) = some go_int32
type_of (int64 z) = some go_int64
type_of (uint8 n) = some go_uint8
type_of (uint16 n) = some go_uint16
type_of (uint32 n) = some go_uint32
type_of (uint64 n) = some go_uint64
type_of (float32 b) = some go_float32
type_of (float64 b) = some go_float64
type_of (string s) = some go_string
type_of (time t) = some go_time
type_of (guid g) = some go_guid
type_of (bytes b) = some go_bytes
type_of _ = none

abbrev pub count : Values → ℕ
count done = 0
count (item v vs) = suc (count vs)

-- The integer that a value of an integer type stands for.
abbrev pub number : Value → Option ℤ
number (int z) = some z
number (int8 z) = some z
number (int16 z) = some z
number (int32 z) = some z
number (int64 z) = some z
number (uint n) = some (pos n)
number (uint8 n) = some (pos n)
number (uint16 n) = some (pos n)
number (uint32 n) = some (pos n)
number (uint64 n) = some (pos n)
number _ = none

abbrev pub Between : ℤ → ℤ → ℤ → Type 0
Between lo hi z = (lo ≤ℤ z) × (z ≤ℤ hi)

-- What Go's types guarantee of a number: it fits the width of its type.
abbrev pub Fits : Value → Type 0
Fits (int z) = Between (neg 9223372036854775808) (pos 9223372036854775807) z
Fits (int8 z) = Between (neg 128) (pos 127) z
Fits (int16 z) = Between (neg 32768) (pos 32767) z
Fits (int32 z) = Between (neg 2147483648) (pos 2147483647) z
Fits (int64 z) = Between (neg 9223372036854775808) (pos 9223372036854775807) z
Fits (uint n) = n < 2 ^ 64
Fits (uint8 n) = n < 2 ^ 8
Fits (uint16 n) = n < 2 ^ 16
Fits (uint32 n) = n < 2 ^ 32
Fits (uint64 n) = n < 2 ^ 64
Fits _ = Unit
