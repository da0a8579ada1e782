-- ===== src/BlockAllocator/Owned.antt =====
-- Who holds which block: crates/starlight/src/gc/block_allocator.rs.
use js.BlockAllocator.Exchange.{exchange_refused, exchange_taken}
use js.BlockAllocator.Clients.{
  Ownership, Call, Calls, here, next, take_call, refuse_call, return_call, initial,
}
use mathlib.Core.Path.{subst}
use mathlib.Core.Option.{some-injective}
use js.Common.{
  ℕ, ap, sym, ◌+◌, ◌-◌, ◌*◌, ◌%◌, ◌^◌, ◌≤◌, ◌<◌, ◌≡◌, ◌≢◌, ◌∙◌, refl, arith, ◌⊎◌, inl, inr, Bool,
  true, false, ◌&&◌, ◌||◌, none, some, List, [], ◌∷◌,
}
use js.Common.{ltb, leb, ◌==◌, if◌then◌else◌, Bool-cases}
use js.Block.{Block, block_size}
use js.BlockAllocator.{
  new_allocator, new_mmap, aligned, build_block, get_from, get_block, return_block,
}

-- The number of times that `p` is in the list.
unfoldable count : ℕ → List ℕ → ℕ
count p [] = 0
count p (x ∷ xs) = (if p == x then 1 else 0) + count p xs

unfoldable one_if : Bool → ℕ
one_if b = if b then 1 else 0

module _ (first bound : ℕ) where
  -- An address where a block was cut from the mapping, up to `data'`.
  unfoldable is_carved : ℕ → ℕ → Bool
  is_carved data' p = leb first p && (ltb p data' && (p % block_size == 0))

  record IsOwned (w : Ownership) : Type 0 where
    data_aligned : w.allocator.data' % block_size ≡ 0
    from_first : first ≤ w.allocator.data'
    inside : (w.allocator.data' ≤ bound) ⊎ (w.allocator.data' ≡ first)
    same_bound : w.allocator.data_bound ≡ bound
    shared :
        (p : ℕ)
        → one_if (w.held p) + count p w.allocator.free_blocks
          ≡ one_if (is_carved w.allocator.data' p)

  module _ (fits : first + block_size + block_size ≤ 2 ^ 64)
      (end_fits : bound + block_size < 2 ^ 64) where
    data-small : (w : Ownership) → IsOwned w → w.allocator.data' + block_size < 2 ^ 64
    data-small w o = elim o.inside [
      | inl le ↦ omega (arith, le, end_fits)
      | inr eq' ↦ omega (arith, eq', fits)
    ]

    -- What a client may rely on when it gets the block at `b`.
    abbrev IsNew : Ownership → ℕ → Type 0
    IsNew w b = (b % block_size ≡ 0) × (first ≤ b) × (b + block_size ≤ bound) × (w.held b ≡ false)

    take-IsOwned :
        (w : Ownership) (failures b : ℕ) (xs : List ℕ)
        → IsOwned w
        → w.allocator.free_blocks ≡ xs
        → (get_from failures w.allocator xs).0 ≡ some b
        → IsNew w b
          × IsOwned (record {
            allocator = (get_from failures w.allocator xs).1;
            held = λ p. if p == b then true else w.held p;
          })
    unfolding get_from build_block count one_if is_carved
    take-IsOwned w failures b [] o e h =
        let data' = w.allocator.data' in
        let low = o.from_first in
        let lined = o.data_aligned in
        let small = data-small w o in
        elim (Bool-cases (ltb w.allocator.data_bound (data' + block_size))) [
          | inl over ↦
              let stayed = exchange_refused failures w.allocator.data_bound data' small over in
              absurd (ground (arith, sym (ap (λ t. t.0) stayed) ∙ h))
          | inr under ↦
              let took = exchange_taken failures w.allocator.data_bound data' small under in
              let same : data' ≡ b = some-injective data' b (sym (ap (λ t. t.0) took) ∙ h) in
              let room : data' + block_size ≤ bound = ground (arith, under, o.same_bound) in
              let at' = λ (p : ℕ).
                subst (λ l. one_if (w.held p) + count p l ≡ one_if (is_carved data' p)) e
                  (o.shared p) in
              rw took (
                subst
                  (λ x.
                    IsNew w x
                    × IsOwned (record {
                      allocator = record w.allocator { data' = data' + block_size };
                      held = λ p. if p == x then true else w.held p;
                    }))
                  same
                  (
                    (lined, low, room, ground (arith, at' data')),
                    record {
                      data_aligned = omega (arith, lined);
                      from_first = omega (arith, low);
                      inside = inl room;
                      same_bound = o.same_bound;
                      shared = λ p. ground (arith, at' p);
                    },
                  ))
        ]
    take-IsOwned w failures b (x ∷ xs) o e h =
        let data' = w.allocator.data' in
        let low = o.from_first in
        let lined = o.data_aligned in
        let at' = λ (p : ℕ).
          subst (λ l. one_if (w.held p) + count p l ≡ one_if (is_carved data' p)) e (o.shared p) in
        let same : x ≡ b = some-injective x b h in
        let below : x < data' = ground (arith, at' x) in
        let on : x % block_size ≡ 0 = ground (arith, at' x) in
        let first_below : first ≤ x = ground (arith, at' x) in
        let room : x + block_size ≤ data' = omega (arith, below, on, lined) in
        let room' : x + block_size ≤ bound = elim o.inside [
          | inl le ↦ omega (arith, room, le)
          | inr eq' ↦ absurd (omega (arith, eq', below, first_below))
        ] in
        subst
          (λ y.
            IsNew w y
            × IsOwned (record {
              allocator = (get_from failures w.allocator (x ∷ xs)).1;
              held = λ p. if p == y then true else w.held p;
            }))
          same
          (
            (on, first_below, room', ground (arith, at' x)),
            record {
              data_aligned = lined;
              from_first = low;
              inside = o.inside;
              same_bound = o.same_bound;
              shared = λ p. ground (arith, at' p);
            },
          )

    refuse-IsOwned :
        (w : Ownership) (failures : ℕ) (xs : List ℕ)
        → IsOwned w
        → (get_from failures w.allocator xs).0 ≡ none
        → IsOwned (record w { allocator = (get_from failures w.allocator xs).1 })
    unfolding get_from build_block
    refuse-IsOwned w failures (x ∷ xs) o h = absurd (ground (arith, h))
    refuse-IsOwned w failures [] o h =
        let data' = w.allocator.data' in
        let small = data-small w o in
        elim (Bool-cases (ltb w.allocator.data_bound (data' + block_size))) [
          | inl over ↦
              let stayed = exchange_refused failures w.allocator.data_bound data' small over in
              rw stayed o
          | inr under ↦
              let took = exchange_taken failures w.allocator.data_bound data' small under in
              absurd (ground (arith, sym (ap (λ t. t.0) took) ∙ h))
        ]

    Call-IsOwned : {v w : Ownership} → Call v w → IsOwned v → IsOwned w
    unfolding get_block return_block count one_if
    Call-IsOwned (take_call w failures b e) o =
        (take-IsOwned w failures b w.allocator.free_blocks o refl e).1
    Call-IsOwned (refuse_call w failures e) o =
        refuse-IsOwned w failures w.allocator.free_blocks o e
    Call-IsOwned (return_call w b e) o = record {
      data_aligned = o.data_aligned;
      from_first = o.from_first;
      inside = o.inside;
      same_bound = o.same_bound;
      shared = λ p. ground (arith, o.shared p);
    }

    Calls-IsOwned : {v w : Ownership} → Calls v w → IsOwned v → IsOwned w
    Calls-IsOwned here o = o
    Calls-IsOwned (next r st) o = Call-IsOwned st (Calls-IsOwned r o)

-- Two blocks share no byte.
apart :
    (b c : ℕ)
    → b % block_size ≡ 0
    → c % block_size ≡ 0
    → b ≢ c
    → (leb (b + block_size) c || leb (c + block_size) b) ≡ true
apart b c l m other = elim (Bool-cases (leb (b + block_size) c)) [
  | inl before ↦ rw before refl
  | inr after ↦
      let close : c < b + block_size = ground (arith, after) in
      let behind : c + block_size ≤ b = omega (arith, l, m, close, other) in ground (arith, behind)
]

held-carved :
    (first bound : ℕ) (w : Ownership) (c : ℕ)
    → IsOwned first bound w
    → w.held c ≡ true
    → c % block_size ≡ 0
unfolding one_if is_carved
held-carved first bound w c o held = ground (arith, o.shared c, held)

initial-IsOwned :
    (headers : ℕ → Block) (start size : ℕ)
    → start + size + 3 * block_size < 2 ^ 64
    → IsOwned
        (start + (block_size - start % block_size))
        (start + size)
        (initial headers start size)
unfolding new_allocator new_mmap aligned count one_if is_carved
initial-IsOwned headers start size h = record {
  data_aligned = omega arith;
  from_first = omega arith;
  inside = inr refl;
  same_bound = omega (arith, h);
  shared = λ p. ground arith;
}

-- After any sequence of calls by clients that give back only what they hold, on a mapping away from the end
-- of the address space: a block that `get_block` returns, however often the exchange fails, is aligned to
-- the size of a block, lies in the mapping, was held by nobody, and shares no byte with a held block.
pub get_block_sound :
    (headers : ℕ → Block) (start size failures b c : ℕ) (w : Ownership)
    → start + size + 3 * block_size < 2 ^ 64
    → Calls (initial headers start size) w
    → (get_block failures w.allocator).0 ≡ some b
    → (b % block_size ≡ 0)
      × (start < b)
      × (b + block_size ≤ start + size)
      × (w.held b ≡ false)
      × ((if w.held c then leb (b + block_size) c || leb (c + block_size) b else true) ≡ true)
unfolding get_block is_carved one_if
get_block_sound headers start size failures b c w h r e =
    let first = start + (block_size - start % block_size) in
    let bound = start + size in
    let fits : first + block_size + block_size ≤ 2 ^ 64 = omega (arith, h) in
    let ends : bound + block_size < 2 ^ 64 = omega (arith, h) in
    let o = Calls-IsOwned first bound fits ends r (initial-IsOwned headers start size h) in
    let (lined, low, room, new) =
      (take-IsOwned first bound fits ends w failures b w.allocator.free_blocks o refl e).0 in
    (
      lined,
      omega (arith, low),
      room,
      new,
      elim (Bool-cases (w.held c)) [
        | inl held ↦
            let on : c % block_size ≡ 0 = held-carved first bound w c o held in
            let other : b ≢ c = λ same. ground (arith, ap w.held same, new, held) in
            rw held (apart b c lined on other)
        | inr free ↦ rw free refl
      ],
    )
