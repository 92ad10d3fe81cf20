-- ===== src/Bridge/Runtime.antt =====
-- The fields that the server adds to a state it sends (bridge/src/tcp_server.cpp).
use bot_cock_pit.Prelude.{ℕ, Bool, false, not, ◌&&◌, [], ◌∷◌, ◌++◌, ◌==◌, if◌then◌else◌, flat}
use bot_cock_pit.Text.{Text, codes, is_empty, contains}
use bot_cock_pit.Json.{escape}

-- `body.back() == c` and `body.pop_back()`.
unfoldable pub ends_with : ℕ → Text → Bool
ends_with c [] = false
ends_with c (d ∷ []) = d == c
ends_with c (d ∷ e ∷ s) = ends_with c (e ∷ s)

unfoldable pub pop_back : Text → Text
pop_back [] = []
pop_back (d ∷ []) = []
pop_back (d ∷ e ∷ s) = d ∷ pop_back (e ∷ s)

abbrev pub starts_object : Text → Bool
starts_object [] = false
starts_object (c ∷ s) = c == b'{'

unfoldable pub inject_runtime_fields : Text → Text → Text
inject_runtime_fields state_json conn_value =
    if not (is_empty state_json) && contains (codes "\"conn\"") state_json
    then state_json
    else let body = if starts_object state_json then state_json else codes "{}" in
      let bare = if ends_with b'}' body then pop_back body else body in
      let head =
        if not (is_empty bare) && (not (ends_with b',' bare) && not (ends_with b'{' bare))
        then bare ++ codes ","
        else bare in
      head
      ++ flat (
          codes "\"conn\":\""
          ∷ escape conn_value
          ∷ codes "\""
          ∷ codes ",\"heartbeat_rtt_ms\":0}"
          ∷ [])
