-- ===== src/FuncTable/Tests.antt =====
-- Registrations and fetches (go/cmd/gcsfunctable/main.go) on small inputs.
use babyray.Common.{ℕ, ◌≡◌, refl, Option, none, some, List, [], ◌∷◌, err}
use babyray.Common.Dict.{lookup}
use babyray.Wire.{Bytes}
use babyray.FuncTable.{new_gcs_func_server, register_func, fetch_func, uid_failed, func_not_found}
use babyray.FuncTable.Fetch.{register_all, last_registered, answer_for, fetch_func-register_all}

-- The second registration fails, and the third replaces the first.
abbrev calls : List (Option ℕ × Bytes)
calls = (some 5, 1 ∷ []) ∷ (none, 2 ∷ []) ∷ (some 5, 3 ∷ []) ∷ []

fetch_func-register_all_example :
    fetch_func (register_all calls new_gcs_func_server) (record { name = 5; callback_node_id = 0 })
    ≡ answer_for (last_registered 5 calls none)
fetch_func-register_all_example =
    fetch_func-register_all calls (record { name = 5; callback_node_id = 0 })

failures :
    ((register_func none new_gcs_func_server (record { serialized_func = [] })).1 ≡ err uid_failed)
    × (fetch_func new_gcs_func_server (record { name = 5; callback_node_id = 0 })
        ≡ err func_not_found)
unfolding register_func fetch_func lookup
failures = (refl, refl)
