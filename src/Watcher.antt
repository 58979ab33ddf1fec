-- ===== src/Watcher.antt =====
-- internal/opcua/reconnect_watcher.go: the loop of `watch` over the states that it receives.
use opcua_mcp.Prelude.{ℕ, suc, ◌≡◌, refl, Bool, true, false, List, [], ◌∷◌, if◌then◌else◌, ap}
use opcua_mcp.Session.{ConnState, closed, connected}

-- One state received: `everConnected` after it, and whether `onPermanentDeath` was called.
unfoldable pub watch_step : Bool → ConnState → Bool × Bool
watch_step ever_connected connected = (true, false)
watch_step true closed = (false, true)
watch_step ever_connected _ = (ever_connected, false)

-- The calls of `onPermanentDeath` over the states received.
unfoldable pub watch : Bool → List ConnState → ℕ
watch ever_connected [] = 0
watch ever_connected (s ∷ ss) =
    let (ever, died) = watch_step ever_connected s in
    let rest = watch ever ss in if died then suc rest else rest

-- The states that say that a connection lives or is gone for good.
abbrev pub is_final : ConnState → Bool
is_final connected = true
is_final closed = true
is_final _ = false

abbrev pub finals : List ConnState → List ConnState
finals [] = []
finals (s ∷ ss) = if is_final s then s ∷ finals ss else finals ss

-- How often the state `closed` follows `connected`, after the state `s`.
abbrev pub falls : ConnState → List ConnState → ℕ
falls s [] = 0
falls connected (closed ∷ ss) = suc (falls closed ss)
falls s (t ∷ ss) = falls t ss

falls_from : Bool → List ConnState → ℕ
falls_from b ss = falls (if b then connected else closed) (finals ss)

watch-falls_from : (b : Bool) (ss : List ConnState) → watch b ss ≡ falls_from b ss
unfolding watch watch_step falls_from
watch-falls_from true [] = refl
watch-falls_from false [] = refl
watch-falls_from true (connected ∷ ss) = watch-falls_from true ss
watch-falls_from true (closed ∷ ss) = ap suc (watch-falls_from false ss)
watch-falls_from false (connected ∷ ss) = watch-falls_from true ss
watch-falls_from false (closed ∷ ss) = watch-falls_from false ss
watch-falls_from true (_ ∷ ss) = watch-falls_from true ss
watch-falls_from false (_ ∷ ss) = watch-falls_from false ss

-- The watcher rebuilds exactly once for each fall from `connected` to `closed`; the states between
-- them (connecting, disconnected, reconnecting), and a `closed` with no connection before it, never
-- start a rebuild.
watch-falls : (ss : List ConnState) → watch false ss ≡ falls closed (finals ss)
unfolding falls_from
watch-falls ss = watch-falls_from false ss
