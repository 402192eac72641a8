-- ===== src/Tests/Concrete.antt =====
-- Simple instances of the external code, which show that what is assumed of it can be met.
use wire_mesh.Common.{
  ℕ, ◌^◌, ◌≤◌, ◌<◌, String, ◌≡◌, ◌≢◌, refl, ap, subst, ◌∙◌, ◌↔◌, leb→le, Bool, true, false, ◌&&◌,
  Option, none, some, List, [], ◌∷◌, leb, ltb, ◌==◌, ==_iff, if◌then◌else◌, arith, length, In, here,
  there, inl, inr, str_eq, eq_iff, Option-cases, Bool-cases,
}
use wire_mesh.External.Ipnet.{Ipnet, top_bits}
use wire_mesh.External.LpmTrie.{LpmTrie, LpmKey, lpm_matches}
use wire_mesh.External.LruMap.{LruMap}
use wire_mesh.Enforcer.RuleBits.{RuleBits}
use wire_mesh.Enforcer.Flow.{flow_key_eq, flow_key_eq_iff}
use wire_mesh.Enforcer.Classifier.{Kernel}

-- a network is its text; the texts below have an address, any other is 0.0.0.0/32
unfoldable pub text_network : String → ℕ
text_network s =
    if str_eq s "10.1.0.0/16"
    then 167837696
    else if str_eq s "10.2.0.0/16"
    then 167903232
    else if str_eq s "10.2.3.0/24"
    then 167904000
    else 0

unfoldable pub text_prefix : String → ℕ
text_prefix s =
    if str_eq s "10.1.0.0/16"
    then 16
    else if str_eq s "10.2.0.0/16"
    then 16
    else if str_eq s "10.2.3.0/24"
    then 24
    else 32

pub text_prefix-le : (s : String) → text_prefix s ≤ 32
unfolding text_prefix
text_prefix-le s = ground arith

pub text_network-lt : (s : String) → text_network s < 2 ^ 32
unfolding text_network
text_network-lt s = ground arith

abbrev pub text_nets : Ipnet
text_nets = record {
  Net = String;
  net_eq = str_eq;
  net_eq_iff = eq_iff;
  addr = text_network;
  prefix_len = text_prefix;
  network = text_network;
  contains = λ n m.
      leb (text_prefix n) (text_prefix m)
      && top_bits (text_prefix n) (text_network n) == top_bits (text_prefix n) (text_network m);
  parse = λ s. some s;
  parses_v6 = λ s. false;
  to_string = λ n. n;
  prefix_len-le = text_prefix-le;
  network-lt = text_network-lt;
  contains-eq = λ n m. refl;
  parse-to_string = λ n. refl;
}

pub record ListTrie (V : Type 0) : Type 0 where
  pub room : ℕ
  pub items : List (LpmKey × V)

module _ {V : Type 0} where
  unfoldable pub longer : LpmKey × V → Option (LpmKey × V) → LpmKey × V
  longer e none = e
  longer e (some f) = if leb f.0.prefix_len e.0.prefix_len then e else f

  unfoldable pub best : List (LpmKey × V) → ℕ → Option (LpmKey × V)
  unfolding longer
  best [] a = none
  best (e ∷ es) a = let rest = best es a in if lpm_matches e.0 a then some (longer e rest) else rest

  best-none :
      (es : List (LpmKey × V)) (a : ℕ) (e : LpmKey × V)
      → best es a ≡ none
      → In e es
      → lpm_matches e.0 a ≢ true
  unfolding best
  best-none [] a e h m hit = elim m [ ]
  best-none (x ∷ xs) a e h (here p) hit =
      let hit' : lpm_matches x.0 a ≡ true = ap (λ (y : LpmKey × V). lpm_matches y.0 a) p ∙ hit in
      absurd (ground (arith, rw hit' at h))
  best-none (x ∷ xs) a e h (there m) hit = elim (Bool-cases (lpm_matches x.0 a)) [
    | inl yes' ↦ absurd (ground (arith, rw yes' at h))
    | inr no' ↦ best-none xs a e (rw no' at h) m hit
  ]

  some-injective : {a b : LpmKey × V} → ◌≡◌ {A = Option (LpmKey × V)} (some a) (some b) → a ≡ b
  some-injective e = cc

  -- the answer is stored, matches, and is no shorter than any that matches
  abbrev IsBest : List (LpmKey × V) → ℕ → LpmKey × V → Type 0
  IsBest es a f =
      In f es
      × (lpm_matches f.0 a ≡ true)
      × ((e : LpmKey × V) → In e es → lpm_matches e.0 a ≡ true → e.0.prefix_len ≤ f.0.prefix_len)

  prefix_len-eq : {e f : LpmKey × V} → e ≡ f → e.0.prefix_len ≡ f.0.prefix_len
  prefix_len-eq p = ap (λ (y : LpmKey × V). y.0.prefix_len) p

  first-IsBest :
      (x : LpmKey × V) (xs : List (LpmKey × V)) (a : ℕ)
      → lpm_matches x.0 a ≡ true
      → ((e : LpmKey × V) → In e xs → lpm_matches e.0 a ≡ true → e.0.prefix_len ≤ x.0.prefix_len)
      → IsBest (x ∷ xs) a x
  first-IsBest x xs a hit bound = (here refl, hit, below)
    where
      below :
          (e : LpmKey × V)
          → In e (x ∷ xs)
          → lpm_matches e.0 a ≡ true
          → e.0.prefix_len ≤ x.0.prefix_len
      below e (here p) h = omega (arith, prefix_len-eq p)
      below e (there m) h = bound e m h

  later-IsBest :
      (x g : LpmKey × V) (xs : List (LpmKey × V)) (a : ℕ)
      → IsBest xs a g
      → (lpm_matches x.0 a ≡ true → x.0.prefix_len ≤ g.0.prefix_len)
      → IsBest (x ∷ xs) a g
  later-IsBest x g xs a (m, hit, bound) h = (there m, hit, below)
    where
      below :
          (e : LpmKey × V)
          → In e (x ∷ xs)
          → lpm_matches e.0 a ≡ true
          → e.0.prefix_len ≤ g.0.prefix_len
      below e (here p) k =
          omega (arith, prefix_len-eq p, h (ap (λ (y : LpmKey × V). lpm_matches y.0 a) p ∙ k))
      below e (there n) k = bound e n k

  best-some : (es : List (LpmKey × V)) (a : ℕ) (f : LpmKey × V) → best es a ≡ some f → IsBest es a f
  unfolding best
  best-some [] a f h = cc
  best-some (x ∷ xs) a f h = elim (Bool-cases (lpm_matches x.0 a)) [
    | inr no' ↦ later-IsBest x f xs a (best-some xs a f (rw no' at h)) (λ e. cc)
    | inl hit ↦ elim (Option-cases (best xs a)) [
      | inl none' ↦
          let is : some x ≡ some f = rw (hit, none') at h in
          subst (IsBest (x ∷ xs) a) (some-injective is)
            (first-IsBest x xs a hit (λ e m k. absurd (best-none xs a e none' m k)))
      | inr (g, found) ↦
          let ih = best-some xs a g found in
          elim (Bool-cases (leb g.0.prefix_len x.0.prefix_len)) [
            | inl short ↦
                let is : some x ≡ some f = rw (hit, found, short) at h in
                subst (IsBest (x ∷ xs) a) (some-injective is)
                  (first-IsBest x xs a hit (λ e m k. omega (arith, ih.2 e m k, leb→le _ _ short)))
            | inr long ↦
                let is : some g ≡ some f = rw (hit, found, long) at h in
                subst (IsBest (x ∷ xs) a) (some-injective is)
                  (later-IsBest x g xs a ih (λ k. ground arith))
          ]
    ]
  ]

abbrev pub value_of : Option (LpmKey × RuleBits) → Option RuleBits
value_of none = none
value_of (some e) = some e.1

pub list_get-none :
    (t : ListTrie RuleBits) (a : ℕ)
    → value_of (best t.items a) ≡ none
    → (k : LpmKey) (v : RuleBits) → In (k, v) t.items
    → lpm_matches k a ≢ true
list_get-none t a h k v m = elim (Option-cases (best t.items a)) [
  | inl e ↦ best-none t.items a (k, v) e m
  | inr (f, e) ↦ absurd (ground (arith, rw e at h))
]

pub list_get-some :
    (t : ListTrie RuleBits) (a : ℕ) {v : RuleBits}
    → value_of (best t.items a) ≡ some v
    → (k : LpmKey) × In (k, v) t.items
      × (lpm_matches k a ≡ true)
      × ((j : LpmKey) (w : RuleBits)
          → In (j, w) t.items
          → lpm_matches j a ≡ true
          → j.prefix_len ≤ k.prefix_len)
list_get-some t a {v} h = elim (Option-cases (best t.items a)) [
  | inl e ↦ absurd (ground (arith, rw e at h))
  | inr (f, e) ↦
      let (m, hit, bound) = best-some t.items a f e in
      let same : f.1 ≡ v = ground (arith, rw e at h) in
      (f.0, subst (λ (x : RuleBits). In (f.0, x) t.items) same m, hit, λ j w n k. bound (j, w) n k)
]

unfoldable pub list_insert : LpmKey → RuleBits → ListTrie RuleBits → Option (ListTrie RuleBits)
list_insert k v t =
    if ltb (length t.items) t.room then some (record t { items = (k, v) ∷ t.items }) else none

pub list_insert-items :
    (k : LpmKey) (v : RuleBits) (t : ListTrie RuleBits) {u : ListTrie RuleBits}
    → list_insert k v t ≡ some u
    → (u.items ≡ (k, v) ∷ t.items) × (u.room ≡ t.room)
unfolding list_insert
list_insert-items k v t h = ground arith

pub list_insert-room :
    (k : LpmKey) (v : RuleBits) (t : ListTrie RuleBits)
    → length t.items < t.room
    → list_insert k v t ≢ none
unfolding list_insert
list_insert-room k v t h = ground arith

abbrev pub list_trie : LpmTrie RuleBits
list_trie = record {
  Trie = ListTrie RuleBits;
  create = λ n. record { room = n; items = [] };
  insert = list_insert;
  get = λ t a. value_of (best t.items a);
  entries = λ t. t.items;
  max_entries = λ t. t.room;
  entries-create = λ n. refl;
  max_entries-create = λ n. refl;
  entries-insert = λ k v t h. (list_insert-items k v t h).0;
  max_entries-insert = λ k v t h. (list_insert-items k v t h).1;
  insert-ne-none = λ k v t h r. list_insert-room k v t r;
  get-none = list_get-none;
  get-some = list_get-some;
}

-- an LRU map that never evicts
module _ {K V : Type 0} (eq : K → K → Bool) (eq_iff : (a b : K) → (eq a b ≡ true) ↔ (a ≡ b)) where
  abbrev pub put_at : K → Option V → (K → Option V) → K → Option V
  put_at k v m j = if eq k j then v else m j

  pub put_self : (m : K → Option V) (k : K) (v : Option V) → put_at k v m k ≡ v
  put_self m k v = rw ((eq_iff k k).1 refl)

  pub put_other : (m : K → Option V) (k j : K) (v : Option V) → eq k j ≢ true → put_at k v m j ≡ m j
  put_other m k j v h = ground arith

  abbrev pub keep_all : LruMap K V eq
  keep_all = record {
    Map = K → Option V;
    empty = λ k. none;
    get = λ m k. m k;
    insert = λ k v m. put_at k (some v) m;
    remove = λ k m. put_at k none m;
    poke = λ k v m. put_at k (some v) m;
    get-empty = λ k. refl;
    get-remove = λ m k j. refl;
    get-poke = λ m k j v h. refl;
    get-insert_self = λ m k v. inl (put_self m k (some v));
    get-insert_other = λ m k j v h. inl (put_other m k j (some v) h);
  }

abbrev pub kernel : Kernel
kernel = record {
  lpm = list_trie;
  flow_map = keep_all flow_key_eq flow_key_eq_iff;
  rate_map = keep_all ◌==◌ ==_iff;
}
