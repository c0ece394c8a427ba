-- ===== src/FuncTable/Fetch.antt =====
-- What a client of the function table (go/cmd/gcsfunctable/main.go) can fetch after registrations.
use babyray.Common.{
  ℕ, ◌≡◌, refl, ap, ◌∙◌, Option, none, some, List, [], ◌∷◌, ◌==◌, if◌then◌else◌, Outcome, ok, err,
}
use babyray.Common.Dict.{lookup, lookup-insert}
use babyray.Wire.{Bytes, FetchRequest, FetchResponse}
use babyray.FuncTable.{
  GcsFuncServer, new_gcs_func_server, register_func, fetch_func, found_func, FuncError,
  func_not_found,
}

-- Calls of RegisterFunc in their order: what the random source gave, and the function's bytes.
pub register_all : List (Option ℕ × Bytes) → GcsFuncServer → GcsFuncServer
register_all [] s = s
register_all ((random, f) ∷ calls) s =
    register_all calls (register_func random s (record { serialized_func = f })).0

-- The bytes of the last successful registration that was answered with `name`.
abbrev pub last_registered : ℕ → List (Option ℕ × Bytes) → Option Bytes → Option Bytes
last_registered name [] before = before
last_registered name ((none, f) ∷ calls) before = last_registered name calls before
last_registered name ((some uid, f) ∷ calls) before =
    last_registered name calls (if uid == name then some f else before)

-- What FetchFunc is to answer for the bytes that stand under a name.
abbrev pub answer_for : Option Bytes → Outcome FuncError FetchResponse
answer_for none = err func_not_found
answer_for (some f) = ok (record { serialized_func = f })

answer_for-found_func : (o : Option Bytes) → found_func o ≡ answer_for o
unfolding found_func
answer_for-found_func none = refl
answer_for-found_func (some f) = refl

lookup-register_all :
    (name : ℕ) (calls : List (Option ℕ × Bytes)) (s : GcsFuncServer)
    → lookup name (register_all calls s).function_store
      ≡ last_registered name calls (lookup name s.function_store)
unfolding register_all register_func
lookup-register_all name [] s = refl
lookup-register_all name ((none, f) ∷ calls) s = lookup-register_all name calls s
lookup-register_all name ((some uid, f) ∷ calls) s =
    lookup-register_all name calls _
    ∙ ap (last_registered name calls) (lookup-insert uid name f s.function_store)

-- Whatever registrations came before, failed ones included, and whatever the callback node of the
-- request, FetchFunc answers with the bytes of the last successful registration under that name, and
-- with NotFound where there is none.
pub fetch_func-register_all :
    (calls : List (Option ℕ × Bytes)) (req : FetchRequest)
    → fetch_func (register_all calls new_gcs_func_server) req
      ≡ answer_for (last_registered req.name calls none)
unfolding fetch_func lookup
fetch_func-register_all calls req =
    ap found_func (lookup-register_all req.name calls new_gcs_func_server)
    ∙ answer_for-found_func (last_registered req.name calls none)

-- A function that was registered is fetched.
pub fetch_func-last_registered :
    (calls : List (Option ℕ × Bytes)) (req : FetchRequest) (f : Bytes)
    → last_registered req.name calls none ≡ some f
    → fetch_func (register_all calls new_gcs_func_server) req ≡ ok (record { serialized_func = f })
unfolding found_func
fetch_func-last_registered calls req f h = fetch_func-register_all calls req ∙ ap found_func h
