-- ===== src/FuncTable.antt =====
-- go/cmd/gcsfunctable/main.go: the table of registered functions. The mutex makes each handler one
-- step. `generateUID` reads eight bytes of `crypto/rand`, which may fail: what the read gave is an
-- argument.
pub mod Fetch
mod Tests
use babyray.Common.{ℕ, Option, none, some, [], Outcome, ok, err}
use babyray.Common.Dict.{Dict, lookup, insert}
use babyray.Wire.{Bytes, RegisterRequest, RegisterResponse, FetchRequest, FetchResponse}

-- `codes.Internal`, "Internal failed to generate UID"; `codes.NotFound`, "function not found".
pub data FuncError : Type 0 where
  uid_failed : FuncError
  func_not_found : FuncError

pub record GcsFuncServer : Type 0 where
  pub function_store : Dict Bytes

abbrev pub new_gcs_func_server : GcsFuncServer
new_gcs_func_server = record { function_store = [] }

-- `binary.Read` of a big-endian `uint64`, or its error.
generate_uid : Option ℕ → Outcome FuncError ℕ
generate_uid none = err uid_failed
generate_uid (some n) = ok n

store_func :
    Bytes → GcsFuncServer → Outcome FuncError ℕ → GcsFuncServer × Outcome FuncError RegisterResponse
store_func f s (err e) = (s, err e)
store_func f s (ok uid) =
    (record s { function_store = insert uid f s.function_store }, ok (record { name = uid }))

unfoldable pub register_func :
    Option ℕ → GcsFuncServer → RegisterRequest → GcsFuncServer × Outcome FuncError RegisterResponse
unfolding generate_uid store_func
register_func random s req = store_func req.serialized_func s (generate_uid random)

pub found_func : Option Bytes → Outcome FuncError FetchResponse
found_func none = err func_not_found
found_func (some f) = ok (record { serialized_func = f })

unfoldable pub fetch_func : GcsFuncServer → FetchRequest → Outcome FuncError FetchResponse
unfolding found_func
fetch_func s req = found_func (lookup req.name s.function_store)
