-- ===== src/Socket/Stale.antt =====
-- A close event of a socket that is no longer the current one.
use wiremap.Base.{
  ℕ, zero, suc, ◌<◌, ◌≡◌, ◌≢◌, refl, ap, ◌∙◌, true, false, none, some, List, [], ◌∷◌, ◌++◌, length,
  get_elem?, arith,
}
use wiremap.Socket.{WireSocket, ReadyState, set_state, reconnect_timeout, on_close}

get_elem?-set_state :
    (xs : List ReadyState) (i j : ℕ) (r : ReadyState)
    → i ≢ j
    → get_elem? (set_state xs i r) j ≡ get_elem? xs j
get_elem?-set_state [] i j r h = refl
get_elem?-set_state (x ∷ xs) zero zero r h = absurd (h refl)
get_elem?-set_state (x ∷ xs) zero (suc j) r h = refl
get_elem?-set_state (x ∷ xs) (suc i) zero r h = refl
get_elem?-set_state (x ∷ xs) (suc i) (suc j) r h = get_elem?-set_state xs i j r (λ e. h (ap suc e))

length-set_state :
    (xs : List ReadyState) (i : ℕ) (r : ReadyState) → length (set_state xs i r) ≡ length xs
length-set_state [] i r = refl
length-set_state (x ∷ xs) zero r = refl
length-set_state (x ∷ xs) (suc i) r = ap suc (length-set_state xs i r)

get_elem?-append :
    (xs : List ReadyState) (j : ℕ) (x y : ReadyState)
    → get_elem? xs j ≡ some x
    → get_elem? (xs ++ (y ∷ [])) j ≡ some x
get_elem?-append [] j x y h = cc
get_elem?-append (z ∷ xs) zero x y h = h
get_elem?-append (z ∷ xs) (suc j) x y h = get_elem?-append xs j x y h

lt-length_of_get_elem? :
    (xs : List ReadyState) (j : ℕ) (x : ReadyState) → get_elem? xs j ≡ some x → j < length xs
lt-length_of_get_elem? [] j x h = cc
lt-length_of_get_elem? (y ∷ xs) zero x h = omega arith
lt-length_of_get_elem? (y ∷ xs) (suc j) x h = omega (arith, lt-length_of_get_elem? xs j x h)

-- While socket `j` is current and open, and no close is intended, the close event of any other
-- socket makes the object forget `j`, which stays open, and sets the reconnect timer; the timer
-- then makes another socket beside `j`.
pub close_of_stale :
    (i j : ℕ) (s : WireSocket)
    → s.ws ≡ some j
    → get_elem? s.states j ≡ some ReadyState.opened
    → i ≢ j
    → s.intentional_close ≡ false
    → ((on_close i s).ws ≡ none)
      × ((on_close i s).timer ≡ true)
      × ((reconnect_timeout true (on_close i s)).ws ≡ some (length s.states))
      × (j < length s.states)
      × (get_elem? (reconnect_timeout true (on_close i s)).states j ≡ some ReadyState.opened)
unfolding on_close reconnect_timeout
close_of_stale i j s w o n c =
    let kept = get_elem?-set_state s.states i j ReadyState.closed n ∙ o in
    (
      ground arith,
      ground arith,
      ground (arith, length-set_state s.states i ReadyState.closed),
      lt-length_of_get_elem? s.states j _ o,
      ground (
        arith,
        get_elem?-append (set_state s.states i ReadyState.closed) j ReadyState.opened
            ReadyState.connecting kept,
      ),
    )
