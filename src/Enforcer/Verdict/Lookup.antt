-- ===== src/Enforcer/Verdict/Lookup.antt =====
-- A lookup in a trie of `build_trie` finds the bits of all the rules whose side holds the address,
-- though the trie answers with one prefix only, the longest.
use wire_mesh.Common.Bits.{top_eq_le}
use wire_mesh.Common.{
  ℕ, ◌+◌, ◌-◌, ◌≤◌, ◌≡◌, refl, sym, ◌∙◌, ap, subst, Bool, true, false, ◌&&◌, Option, none, some,
  List, [], ◌∷◌, ◌⊎◌, leb, ◌==◌, any_of, length, arith, ==_iff, Bool-cases, inl, inr, In, here,
  there, In-map, In-map_of, any_of-witness, leb→le, le→leb, Option-cases,
}
use wire_mesh.External.Ipnet.{Ipnet, has_addr}
use wire_mesh.External.LpmTrie.{LpmTrie, LpmKey, lpm_matches, swap32, swap32-swap32}
use wire_mesh.Enforcer.RuleBits.{RuleBits, no_bits, bit_get, max_rules, bit_get-no_bits}
use wire_mesh.Enforcer.Flatten.{FlatRule, Side}
use wire_mesh.Enforcer.Flatten.Distinct.{DistinctSideCidrs, default, observe, lpm_max_entries}
use wire_mesh.Enforcer.Flatten.Observe.{
  Synced, Synced-observe, Synced-default, In-observe, In-observe_old,
}
use wire_mesh.Enforcer.Tables.{
  side_cidrs, accumulate_from, accumulate_side, covering_bits, build_lpm_entries, key_of,
  insert_all, build_trie,
}
use wire_mesh.Enforcer.Scan.{bits_or_none}
use wire_mesh.Enforcer.Verdict.{holds}
use wire_mesh.Enforcer.Verdict.Covering.{IsIndexed, at_index, covers_net, bit_get-covering_bits}

any_of-congr {ℓ} :
    {A : Type ℓ} (p q : A → Bool) (xs : List A)
    → ((a : A) → In a xs → p a ≡ q a)
    → any_of p xs ≡ any_of q xs
any_of-congr p q [] h = refl
any_of-congr p q (x ∷ xs) h =
    ground (arith, h x (here refl), any_of-congr p q xs (λ a m. h a (there m)))

-- `insert` in the order of the list, the latest first
push_all {ℓ κ} : {A : Type ℓ} {B : Type κ} → (A → B) → List A → List B → List B
push_all f [] acc = acc
push_all f (x ∷ xs) acc = push_all f xs (f x ∷ acc)

In-push_all_old {ℓ κ} :
    {A : Type ℓ} {B : Type κ} (f : A → B) (xs : List A) (acc : List B) {b : B}
    → In b acc
    → In b (push_all f xs acc)
unfolding push_all
In-push_all_old f [] acc m = m
In-push_all_old f (x ∷ xs) acc m = In-push_all_old f xs (f x ∷ acc) (there m)

In-push_all_new {ℓ κ} :
    {A : Type ℓ} {B : Type κ} (f : A → B) (xs : List A) (acc : List B) {a : A}
    → In a xs
    → In (f a) (push_all f xs acc)
unfolding push_all
In-push_all_new f [] acc m = elim m [ ]
In-push_all_new f (x ∷ xs) acc (here e) = In-push_all_old f xs (f x ∷ acc) (here (ap f e))
In-push_all_new f (x ∷ xs) acc (there m) = In-push_all_new f xs (f x ∷ acc) m

In-push_all {ℓ κ} :
    {A : Type ℓ} {B : Type κ} (f : A → B) (xs : List A) (acc : List B) {b : B}
    → In b (push_all f xs acc)
    → In b acc ⊎ ((a : A) × In a xs × (f a ≡ b))
unfolding push_all
In-push_all f [] acc m = inl m
In-push_all f (x ∷ xs) acc m = elim (In-push_all f xs (f x ∷ acc) m) [
  | inl (here e) ↦ inr (x, here refl, e)
  | inl (there k) ↦ inl k
  | inr (a, k, e) ↦ inr (a, there k, e)
]

none_ne_some {ℓ} : {A : Type ℓ} {a : A} → ◌≡◌ {A = Option A} none (some a) → ⊥
none_ne_some e = cc

module _ (ip : Ipnet) where
  open ip use {
    Net, net_eq, net_eq_iff, prefix_len, network, contains, prefix_len-le, network-lt, contains-eq,
  }

  In-accumulate_old :
      (d : DistinctSideCidrs Net) (fs : List (FlatRule Net)) (side : Side) {c : Net}
      → In c d.order
      → In c (accumulate_from ip d fs side).order
  unfolding accumulate_from
  In-accumulate_old d [] side m = m
  In-accumulate_old d (f ∷ fs) side m =
      In-accumulate_old (observe net_eq d (side_cidrs f side)) fs side
        (In-observe_old net_eq net_eq_iff d (side_cidrs f side) m)

  In-accumulate_from :
      (d : DistinctSideCidrs Net) (fs : List (FlatRule Net)) (side : Side) {f : FlatRule Net}
      {c : Net}
      → Synced net_eq net_eq_iff d
      → In f fs
      → In c (side_cidrs f side)
      → In c (accumulate_from ip d fs side).order
  unfolding accumulate_from
  In-accumulate_from d [] side h m k = elim m [ ]
  In-accumulate_from d (g ∷ fs) side {f} {c} h (here e) k =
      In-accumulate_old (observe net_eq d (side_cidrs g side)) fs side (
        In-observe net_eq net_eq_iff d (side_cidrs g side) h
          (subst (λ x. In c (side_cidrs x side)) (sym e) k))
  In-accumulate_from d (g ∷ fs) side h (there m) k =
      In-accumulate_from (observe net_eq d (side_cidrs g side)) fs side
        (Synced-observe net_eq net_eq_iff d (side_cidrs g side) h) m k

  -- Every CIDR of a rule's side is a key of the trie.
  pub In-accumulate_side :
      (fs : List (FlatRule Net)) (side : Side) {f : FlatRule Net} {c : Net}
      → In f fs
      → In c (side_cidrs f side)
      → In c (accumulate_side ip fs side).order
  unfolding accumulate_side
  In-accumulate_side fs side m k =
      In-accumulate_from default fs side (Synced-default net_eq net_eq_iff) m k

  -- The trie's test is the network's.
  lpm_matches-key_of : (n : Net) (a : ℕ) → lpm_matches (key_of ip n) a ≡ has_addr ip n (swap32 a)
  unfolding key_of
  lpm_matches-key_of n a = rw (swap32-swap32 (network n) (network-lt n))

  -- A network that holds an address is covered by `c` exactly when `c` is no longer and holds it.
  contains-of_has_addr :
      (c n : Net) (a : ℕ)
      → has_addr ip n a ≡ true
      → contains c n ≡ (leb (prefix_len c) (prefix_len n) && has_addr ip c a)
  contains-of_has_addr c n a h = elim (Bool-cases (leb (prefix_len c) (prefix_len n))) [
    | inr longer ↦ rw (contains-eq c n, longer)
    | inl shorter ↦
        let same =
          top_eq_le (32 - prefix_len n) (32 - prefix_len c) (network n) a
            (omega (arith, leb→le _ _ shorter)) ((==_iff _ _).0 h) in
        rw (contains-eq c n, shorter, same)
  ]

  module _ (lpm : LpmTrie RuleBits) where
    open lpm use {
      Trie, create, insert, get, entries, entries-create, entries-insert, get-none, get-some,
    }

    abbrev entry_of : Net × RuleBits → LpmKey × RuleBits
    entry_of e = (key_of ip e.0, e.1)

    -- The trie holds what it held and what was inserted.
    entries-insert_all :
        (t u : Trie) (es : List (Net × RuleBits))
        → insert_all ip lpm t es ≡ some u
        → entries u ≡ push_all entry_of es (entries t)
    unfolding insert_all push_all
    entries-insert_all t u [] h = cc
    entries-insert_all t u ((n, b) ∷ es) h = elim (Option-cases (insert (key_of ip n) b t)) [
      | inl full ↦ absurd (none_ne_some (rw (full, insert_all) at h))
      | inr (v, done) ↦
          entries-insert_all v u es (rw (done, insert_all) at h)
          ∙ ap (push_all entry_of es) (entries-insert (key_of ip n) b t done)
    ]

    module _ (fs : List (FlatRule Net)) (side : Side) (u : Trie) (i : ℕ) (indexed : IsIndexed i fs)
        (fit : i + length fs ≤ max_rules)
        (built : build_trie ip lpm (build_lpm_entries ip fs side) ≡ some u) where
      entries_built : entries u ≡ push_all entry_of (build_lpm_entries ip fs side) []
      unfolding build_trie
      entries_built =
          entries-insert_all (create lpm_max_entries) u (build_lpm_entries ip fs side) built
          ∙ ap (push_all entry_of (build_lpm_entries ip fs side)) (entries-create lpm_max_entries)

      abbrev stored : Net → RuleBits
      stored n = covering_bits ip fs side n no_bits

      -- every key of the trie is a network of the side with its bits
      entry-of_trie :
          (k : LpmKey) (v : RuleBits)
          → In (k, v) (entries u)
          → (n : Net) × (key_of ip n ≡ k) × (stored n ≡ v)
      unfolding build_lpm_entries
      entry-of_trie k v m =
          elim (In-push_all entry_of (build_lpm_entries ip fs side) []
            (subst (In (k, v)) entries_built m)) [
              | inl old ↦ elim old [ ]
              | inr (e, new, is) ↦
                  let (n, _, from) =
                    In-map (λ p. (p, stored p)) (accumulate_side ip fs side).order new in
                  (
                    n,
                    ap (λ (x : Net × RuleBits). key_of ip x.0) from
                        ∙ ap (λ (x : LpmKey × RuleBits). x.0) is,
                    ap (λ (x : Net × RuleBits). x.1) from ∙ ap (λ (x : LpmKey × RuleBits). x.1) is,
                  )
            ]

      trie-has :
          {f : FlatRule Net} {c : Net}
          → In f fs
          → In c (side_cidrs f side)
          → In (key_of ip c, stored c) (entries u)
      unfolding build_lpm_entries
      trie-has {f} {c} m k = subst (In (key_of ip c, stored c)) (sym entries_built) (
          In-push_all_new entry_of (build_lpm_entries ip fs side) []
            (In-map_of (λ p. (p, stored p)) (In-accumulate_side fs side m k)))

      module _ (a : ℕ) where
        -- a network of a rule's side that holds the address
        net-holding :
            (f : FlatRule Net)
            → In f fs
            → holds ip (side_cidrs f side) (swap32 a) ≡ true
            → (c : Net) × In (key_of ip c, stored c) (entries u)
              × (lpm_matches (key_of ip c) a ≡ true)
        net-holding f m h =
            let (c, k, e) = any_of-witness (λ c. has_addr ip c (swap32 a)) (side_cidrs f side) h in
            (c, trie-has m k, lpm_matches-key_of c a ∙ e)

        none-hold :
            (j : ℕ)
            → get u a ≡ none
            → any_of (at_index (λ f. holds ip (side_cidrs f side) (swap32 a)) j) fs ≡ false
        none-hold j miss =
            elim (Bool-cases
              (any_of (at_index (λ f. holds ip (side_cidrs f side) (swap32 a)) j) fs)) [
                | inr ok ↦ ok
                | inl some' ↦
                    let (f, m, e) =
                      any_of-witness (at_index (λ f. holds ip (side_cidrs f side) (swap32 a)) j) fs
                        some' in
                    let (c, k, hit) = net-holding f m (ground arith) in
                    absurd (get-none u a miss (key_of ip c) (stored c) k hit)
              ]

        -- under the longest match `n`, covering the prefix and holding the address are the same
        module _ (n : Net) (hit : has_addr ip n (swap32 a) ≡ true)
            (longest : (j : LpmKey) (w : RuleBits)
              → In (j, w) (entries u)
              → lpm_matches j a ≡ true
              → j.prefix_len ≤ prefix_len n) where
          contains-eq-has_addr :
              (f : FlatRule Net)
              → In f fs
              → (c : Net) → In c (side_cidrs f side)
              → contains c n ≡ has_addr ip c (swap32 a)
          unfolding key_of
          contains-eq-has_addr f m c k = elim (Bool-cases (has_addr ip c (swap32 a))) [
            | inr out ↦ ground (arith, contains-of_has_addr c n (swap32 a) hit)
            | inl in' ↦
                let shorter =
                  longest (key_of ip c) (stored c) (trie-has m k) (lpm_matches-key_of c a ∙ in') in
                ground (arith, contains-of_has_addr c n (swap32 a) hit, le→leb _ _ shorter)
          ]

          covers_net-eq-holds :
              (j : ℕ)
              → any_of (at_index (covers_net ip side n) j) fs
                ≡ any_of (at_index (λ f. holds ip (side_cidrs f side) (swap32 a)) j) fs
          covers_net-eq-holds j =
              any_of-congr (at_index (covers_net ip side n) j)
                (at_index (λ f. holds ip (side_cidrs f side) (swap32 a)) j) fs
                λ f m.
                  ap (λ (b : Bool). f.idx == j && b)
                    (any_of-congr (λ c. contains c n) (λ c. has_addr ip c (swap32 a))
                      (side_cidrs f side) (contains-eq-has_addr f m))

        -- The bits that a lookup finds are those of the rules whose side holds the address.
        pub bit_get-get :
            (j : ℕ)
            → bit_get (bits_or_none (get u a)) j
              ≡ any_of (at_index (λ f. holds ip (side_cidrs f side) (swap32 a)) j) fs
        unfolding key_of
        bit_get-get j = elim (Option-cases (get u a)) [
          | inl miss ↦ rw (miss, bit_get-no_bits j) (sym (none-hold j miss))
          | inr (v, found) ↦
              let (k, m, hit, longest) = get-some u a found in
              let (n, kn, vn) = entry-of_trie k v m in
              let hit' : lpm_matches (key_of ip n) a ≡ true =
                ap (λ (x : LpmKey). lpm_matches x a) kn ∙ hit in
              let longest' =
                subst
                  (λ (x : LpmKey).
                    (j : LpmKey) (w : RuleBits)
                    → In (j, w) (entries u)
                    → lpm_matches j a ≡ true
                    → j.prefix_len ≤ x.prefix_len)
                  (sym kn) longest in
              rw
                (
                  found,
                  ← vn,
                  bit_get-covering_bits ip fs side n no_bits i j indexed fit,
                  bit_get-no_bits j,
                )
                (covers_net-eq-holds n (sym (lpm_matches-key_of n a) ∙ hit') longest' j)
        ]
