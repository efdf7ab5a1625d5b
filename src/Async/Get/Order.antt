-- ===== src/Async/Get/Order.antt =====
-- The ring of requests is a queue: the oldest request is asked first, and its work unit is read
-- from the buffer that was handed over with it.
use native.Mathlib.Nat.{add-zero, mod-add-mod, mod-eq_of_lt, mod-eq-sub-mod, mod-lt}
use mathlib.Core.Path.{ap₂}
use exm_turbine.Common.{
  ℕ, zero, suc, ◌+◌, ◌-◌, ◌%◌, ◌≤◌, ◌<◌, ◌≡◌, ◌≢◌, sym, ap, ◌∙◌, List, [], ◌∷◌, ◌++◌, append_assoc,
  append-nil, arith, Bool-cases, ltb, ltb→lt, ltb→ge, inl, inr, length, length-set, get_or,
  get_or-set_self, get_or-set_ne, set,
}
use exm_turbine.Async.Get.{GetReqState, store_reqs, issue_reqs, next_req, tmp_bufs}
use exm_turbine.Async.Get.Ring.{IsRing, store_reqs-Stored, round}
use exm_turbine.Async.Get.Queue.{window, pending, issued}

-- An index that ran over the end once.
wrapped : (a cap : ℕ) → cap ≤ a → a < cap + cap → a % cap ≡ a - cap
wrapped a cap over once =
    mod-eq-sub-mod {n = a} {m = cap} over ∙ mod-eq_of_lt {n = a - cap} {m = cap} (omega arith)

-- Fewer steps round the ring than it is long do not come back to the start.
ring_ne : {cap h k : ℕ} → h < cap → suc k < cap → (h + suc k) % cap ≢ h
ring_ne {cap} {h} {k} inside short back = elim (Bool-cases (ltb (h + suc k) cap)) [
  | inl before ↦
      let same : (h + suc k) % cap ≡ h + suc k = mod-eq_of_lt (ltb→lt (h + suc k) cap before) in
      omega (arith, same, back)
  | inr beyond ↦
      let over = ltb→ge (h + suc k) cap beyond in
      let round_once = wrapped (h + suc k) cap over (omega arith) in
      omega (arith, over, round_once, back)
]

window-set :
    (buffers : List ℕ) (cap : ℕ) (reqs : List ℕ) (x n h i : ℕ)
    → length reqs ≡ cap
    → h < cap
    → n < cap
    → i ≡ (h + n) % cap
    → window buffers cap (set reqs i x) h (suc n)
      ≡ window buffers cap reqs h n ++ (x, get_or buffers i 0) ∷ []
window-set buffers cap reqs x zero h i hs hh hn e =
    let at : i ≡ h = e ∙ (ap (λ k. k % cap) (add-zero h) ∙ mod-eq_of_lt hh) in
    rw (at, get_or-set_self reqs h x 0 (omega arith))
window-set buffers cap reqs x (suc n) h i hs hh hn e =
    ap₂ ◌∷◌ (ap (λ r. (r, get_or buffers h 0)) (get_or-set_ne reqs i h x 0 (rw e (ring_ne hh hn))))
      (window-set buffers cap reqs x n ((h + 1) % cap) i hs (mod-lt _ (omega arith)) (omega arith)
        (e ∙ sym (round h n cap)))

one_on : (h t m c : ℕ) → h ≡ (t + m) % c → (h + 1) % c ≡ (t + suc m) % c
one_on h t m c e = rw (e, mod-add-mod) (ap (λ k. k % c) (omega arith))

-- Storing new requests appends them to the window, each with its own buffer.
store_reqs-window :
    (n i m first : ℕ) (reqs : ℕ → ℕ) (s : GetReqState)
    → length s.requests ≡ s.max_reqs
    → s.tail < s.max_reqs
    → s.head ≡ (s.tail + m) % s.max_reqs
    → s.head ≡ (first + i) % s.max_reqs
    → m + n ≤ s.max_reqs
    → window s.buffers s.max_reqs (store_reqs n i reqs s).requests s.tail (m + n)
      ≡ window s.buffers s.max_reqs s.requests s.tail m
        ++ issued reqs (λ j. get_or s.buffers ((first + j) % s.max_reqs) 0) i n
unfolding store_reqs
store_reqs-window zero i m first reqs s hs ht hh hf hn = rw (add-zero, append-nil)
store_reqs-window (suc n) i m first reqs s hs ht hh hf hn =
    ap (window s.buffers s.max_reqs (store_reqs n (i + 1) reqs s').requests s.tail) (omega arith)
    ∙ (store_reqs-window n (i + 1) (suc m) first reqs s'
          (length-set s.requests s.head (reqs i) ∙ hs) ht (one_on s.head s.tail m s.max_reqs hh)
          (one_on s.head first i s.max_reqs hf ∙ ap (λ k. (first + k) % s.max_reqs) (omega arith))
          (omega arith)
        ∙ (ap (λ l. l ++ issued reqs bufs (i + 1) n) stored
            ∙ append_assoc (window s.buffers s.max_reqs s.requests s.tail m) _ _))
  where
    s' : GetReqState
    s' = record s { requests = set s.requests s.head (reqs i); head = (s.head + 1) % s.max_reqs }

    bufs : ℕ → ℕ
    bufs j = get_or s.buffers ((first + j) % s.max_reqs) 0

    stored :
        window s.buffers s.max_reqs (set s.requests s.head (reqs i)) s.tail (suc m)
        ≡ window s.buffers s.max_reqs s.requests s.tail m ++ (reqs i, bufs i) ∷ []
    stored =
        window-set s.buffers s.max_reqs s.requests (reqs i) m s.tail s.head hs ht (omega arith) hh
        ∙ ap
            (λ k.
              window s.buffers s.max_reqs s.requests s.tail m
              ++ (reqs i, get_or s.buffers k 0) ∷ [])
            hf

same_window :
    (reqs : List ℕ) {b b' : List ℕ} {c c' t t' n n' : ℕ}
    → b' ≡ b
    → c' ≡ c
    → t' ≡ t
    → n' ≡ n
    → window b' c' reqs t' n' ≡ window b c reqs t n
same_window reqs e f g h = cc

pub less : (n : ℕ) (s : GetReqState) → s.nreqs ≡ suc n → (next_req s).nreqs ≡ n
unfolding next_req
less n s e = omega arith

pub pending_cons :
    (n : ℕ) (s : GetReqState)
    → s.nreqs ≡ suc n
    → pending s ≡ (get_or s.requests s.tail 0, get_or s.buffers s.tail 0) ∷ pending (next_req s)
unfolding next_req
pending_cons n s e =
    ap (window s.buffers s.max_reqs s.requests s.tail) e
    ∙ ap
        (λ k.
          (get_or s.requests s.tail 0, get_or s.buffers s.tail 0)
          ∷ window s.buffers s.max_reqs s.requests ((s.tail + 1) % s.max_reqs) k)
        (omega arith)

-- Issuing requests appends them to those outstanding, each with the buffer that ADLB was given.
pub issue_reqs-pending :
    (extra : ℕ) (reqs : ℕ → ℕ) (s : GetReqState)
    → IsRing s
    → s.nreqs + extra ≤ s.max_reqs
    → pending (issue_reqs extra reqs s) ≡ pending s ++ issued reqs (tmp_bufs s) 0 extra
unfolding issue_reqs
issue_reqs-pending extra reqs s v h =
    let k = store_reqs-Stored extra 0 reqs s in
    let inside : s.head < s.max_reqs = rw v.head_at (mod-lt _ (omega arith)) in
    same_window (store_reqs extra 0 reqs s).requests k.same_buffers k.same_max k.same_tail
      (ap (λ n. n + extra) k.same_nreqs)
    ∙ store_reqs-window extra 0 s.nreqs s.head reqs s v.requests_fit v.tail_in v.head_at
        (sym (mod-eq_of_lt inside) ∙ ap (λ k. k % s.max_reqs) (sym (add-zero s.head))) h
