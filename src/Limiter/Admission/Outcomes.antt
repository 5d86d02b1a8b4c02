-- ===== src/Limiter/Admission/Outcomes.antt =====
-- What `Allow` of limiter/ratelimit.go counts, reports and leaves in the registry.
use pace.Prelude.{
  ℕ, ◌==◌, ==_iff, ◌≡◌, refl, sym, subst, ◌∙◌, Bool, true, false, Option, none, some, [], ◌∷◌,
  length, if◌then◌else◌,
}
use pace.Prelude.Int.{ℤ}
use pace.Prelude.Bytes.{Bytes, bytes_eq}
use pace.Prelude.Assoc
use pace.Prelude.Assoc.{Assoc}
use pace.Prelude.Word.{add_int64, wrap64}
use pace.Float.{Float64}
use pace.Bucket
use pace.Bucket.{RateLib, Bucket}
use pace.Bucket.Api.{bucket_api}
use pace.Gate
use pace.Gate.{Gate}
use pace.Gate.Rounds.{Decision}
use pace.Registry.{
  BucketApi, Registry, Entry, Owner, shard_at, shard_for, lookup, through, touch, get_or_create,
  create, found_or,
}
use pace.Registry.Create.{lookup-get_or_create}
use pace.Registry.Population.{IsValid}
use pace.Registry.Preserve.{create-IsValid}
use pace.Registry.Shards.{lookup-put_shard, shard_at-lt}
use pace.Limiter.Admission.{
  Limiter, Around, Answer, count_request, count_throttled, write, allow, allow_local, allow_shared,
  allow_through, allow_if, shared_enabled,
}

==_refl : (n : ℕ) → (n == n) ≡ true
==_refl n = (==_iff n n).1 refl

module _ {Bkt : Type 0} where
  in_shard :
      (r : Registry Bkt) (k : Bytes) (e : Entry Bkt)
      → lookup r k ≡ some e
      → Assoc.lookup k (shard_for r k).keys ≡ some e
  unfolding lookup
  in_shard r k e h = h

  lookup-through :
      (k : Bytes) (e : Entry Bkt) (f : Entry Bkt → Entry Bkt) (m : Assoc (Entry Bkt))
      → Assoc.lookup k m ≡ some e
      → Assoc.lookup k (through e.id f m) ≡ some (f e)
  unfolding Assoc.lookup
  lookup-through k e f [] h = cc
  lookup-through k e f ((j, d) ∷ m) h = go (bytes_eq j k) h (lookup-through k e f m)
    where
      go :
          (b : Bool)
          → (if b then some d else Assoc.lookup k m) ≡ some e
          → (Assoc.lookup k m ≡ some e → Assoc.lookup k (through e.id f m) ≡ some (f e))
          → (if b
              then some (if d.id == e.id then f d else d)
              else Assoc.lookup k (through e.id f m))
            ≡ some (f e)
      go true p r =
          let same : d ≡ e = cc in
          subst (λ x. some (if x.id == e.id then f x else x) ≡ some (f e)) (sym same)
            (rw (==_refl e.id))
      go false p r = r p

module _ (api : BucketApi) where
  pub get_or_create-IsValid :
      (r : Registry api.Bkt) (key : Bytes) (o : Owner api)
      → IsValid r
      → IsValid (o.others r)
      → IsValid (get_or_create api r key o).0
  unfolding get_or_create
  get_or_create-IsValid r key o v w = by_lookup (lookup r key)
    where
      by_lookup :
          (found : Option (Entry api.Bkt))
          → IsValid
              (found_or api r
                (create api
                  (o.others r)
                  key
                  (o.quota_for key)
                  (if o.persists then o.load key else none)
                  o.now)
                found).0
      by_lookup none =
          create-IsValid api (o.others r) key (o.quota_for key)
            (if o.persists then o.load key else none) o.now w
      by_lookup (some e) = v

module _ {fl : Float64} (rl : RateLib fl) where
  pub lookup-write :
      (r : Registry (Bucket rl)) (key : Bytes) (e : Entry (Bucket rl))
      (f : Entry (Bucket rl) → Entry (Bucket rl))
      → IsValid r
      → lookup r key ≡ some e
      → lookup (write rl r key e.id f) key ≡ some (f e)
  unfolding write
  lookup-write r key e f v h =
      lookup-put_shard r (shard_at r key) _ key (shard_at-lt r key v.sharded)
      ∙ rw (==_refl (shard_at r key))
          (lookup-through key e f (shard_for r key).keys (in_shard r key e h))

  abbrev pub Counted : Limiter rl → Answer rl → Type 0
  Counted l out =
      (out.limiter.stats.requests ≡ add_int64 l.stats.requests 1)
      × (out.limiter.stats.throttled
          ≡ (if out.ok then l.stats.throttled else add_int64 l.stats.throttled 1))
      × (length out.infos ≡ (if out.ok then 0 else 1))

  abbrev pub Touched : Bytes → ℤ → Answer rl → Type 0
  Touched key now out =
      (e : Entry (Bucket rl)) × (lookup out.limiter.registry key ≡ some e)
      × (e.last_used ≡ wrap64 now)

  module _ (l : Limiter rl) (key : Bytes) where
    by_bucket :
        (r : Registry (Bucket rl)) (e : Entry (Bucket rl)) (now : ℤ) (b : Bucket rl × Bool)
        → IsValid r
        → lookup r key ≡ some e
        → Counted l (allow_local rl l r key e now b)
          × Touched key now (allow_local rl l r key e now b)
    unfolding count_request count_throttled touch
    by_bucket r e now (b, true) v h = ((refl, refl, refl), (_, lookup-write r key e _ v h, refl))
    by_bucket r e now (b, false) v h = ((refl, refl, refl), (_, lookup-write r key e _ v h, refl))

    by_gate :
        (r : Registry (Bucket rl)) (e : Entry (Bucket rl)) (now : ℤ) (ok : Bool) (d : Decision rl)
        → IsValid r
        → lookup r key ≡ some e
        → Counted l (allow_shared rl l r key e now ok d)
          × Touched key now (allow_shared rl l r key e now ok d)
    unfolding count_request count_throttled touch
    by_gate r e now true d v h = ((refl, refl, refl), (_, lookup-write r key e _ v h, refl))
    by_gate r e now false d v h = ((refl, refl, refl), (_, lookup-write r key e _ v h, refl))

    by_mode :
        (r : Registry (Bucket rl)) (e : Entry (Bucket rl)) (a : Around rl) (g : Option Gate)
        (s : Bool)
        → IsValid r
        → lookup r key ≡ some e
        → Counted l (allow_through rl l r key e a g s)
          × Touched key a.now (allow_through rl l r key e a g s)
    by_mode r e a (some g) true v h =
        let d = Gate.Rounds.allow rl l.spec g key e.bucket a.now a.outside a.meanwhile in
        by_gate r e a.now d.ok d v h
    by_mode r e a (some g) false v h = by_bucket r e a.now (Bucket.allow_at rl e.bucket a.now) v h
    by_mode r e a none s v h = by_bucket r e a.now (Bucket.allow_at rl e.bucket a.now) v h

  -- What a call is to do, by whether the limiter shuts down.
  abbrev pub Does : Limiter rl → Bytes → ℤ → Bool → Answer rl → Type 0
  Does l key now true out = out ≡ record { limiter = l; ok = false; infos = [] }
  Does l key now false out = Counted l out × Touched key now out

  -- While the limiter is open, every Allow is counted as one request, and a refused one, with or
  -- without a shared backend, as one throttled request that is reported once; afterwards the key is
  -- in memory and its time of last use is the time of the call, whatever others did while its state
  -- was loaded, and whatever they did to its bucket while the backend was asked, if they neither
  -- evict nor touch the key then. A limiter that shuts down refuses and changes nothing. The registry
  -- is well-formed, as others leave it too.
  pub allow_outcome :
      (l : Limiter rl) (key : Bytes) (a : Around rl)
      → IsValid l.registry
      → IsValid (a.owner.others l.registry)
      → Does l key a.now l.shutting_down (allow rl l key a)
  unfolding allow
  allow_outcome l key a v w = by_door l.shutting_down
    where
      found : Registry (Bucket rl) × Entry (Bucket rl)
      found = get_or_create (bucket_api rl) l.registry key a.owner

      by_door : (shutting : Bool) → Does l key a.now shutting (allow_if rl l key a shutting)
      by_door true = refl
      by_door false =
          by_mode l key found.0 found.1 a l.gate (shared_enabled rl l.gate found.1.bucket.quota)
            (get_or_create-IsValid (bucket_api rl) l.registry key a.owner v w)
            (lookup-get_or_create (bucket_api rl) l.registry key a.owner w.sharded).0
