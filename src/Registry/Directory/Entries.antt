-- ===== src/Registry/Directory/Entries.antt =====
-- What registry/registry.go and registry/gc.go do to one key, in the directory.

use pace.Prelude.{
  ℕ, ◌+◌, ◌==◌, ==_iff, ◌≡◌, refl, sym, subst, ap, ◌∙◌, Option, none, some, arith, if◌then◌else◌,
}
use pace.Prelude.Int.{ℤ}
use pace.Prelude.Bytes.{Bytes, bytes_eq, bytes_eq_iff}
use pace.Registry.{
  BucketApi, Registry, Entry, Snapshot, lookup, shard_at, put_shard, create, create_if, new_entry,
  add_entry, touch, requote, reload_key, reload_if,
}
use pace.Registry.Create.{lookup-add_entry}
use pace.Registry.Directory.{Directory, put, add, act, Shows}
use pace.Registry.Owned.{IsOwned, Belongs, changed, lookup-write, lookup-write_owned}
use pace.Registry.Population.{IsValid}
use pace.Registry.Run.{creates, touches, reloads_key, step}
use pace.Registry.Gc.Counts.{gone}
use pace.Registry.Owned.Steps.{without_key-Shrinks}
use pace.Registry.Run.{evicts, evicted_if}

module _ (api : BucketApi) where
  open api use {Bkt, Quo, Tok}

  module _ (r : Registry Bkt) (d : Directory Bkt) (v : IsValid r) (s : Shows r d)
      (place : Bytes → ℕ) where
    added_id : (key : Bytes) (e : Entry Bkt) → (add_entry api r key e).next_id ≡ d.next_id + 1
    unfolding add_entry
    added_id key e = omega (arith, s.ids)

    pub create-Shows :
        (key : Bytes) (q : Quo) (found : Option (Snapshot Tok)) (now : ℤ)
        → Shows (create api r key q found now).0 (act api place d (creates key q found now))
    unfolding create lookup
    create-Shows key q found now =
        subst (λ o. Shows (create_if api r key (new r.next_id) o).0 (add d key new (d.entry key)))
          (sym (s.entries key)) (added (d.entry key))
      where
        new : ℕ → Entry Bkt
        new id = new_entry api id q found now

        added :
            (o : Option (Entry Bkt))
            → Shows (create_if api r key (new r.next_id) o).0 (add d key new o)
        added (some e) = s
        added none = record {
          entries = λ k.
              lookup-add_entry api r key k (new r.next_id) v.sharded
              ∙ ground (arith, s.entries k, ap new s.ids);
          ids = added_id key (new r.next_id);
        }

    pub touch-Shows :
        (key : Bytes) (id : ℕ) (now : ℤ)
        → Belongs id key r
        → Shows (step api r (touches key id now)) (act api place d (touches key id now))
    unfolding step touch put_shard
    touch-Shows key id now b = record {
      entries =
          λ k. lookup-write r key k id (λ e. touch e now) v.sharded ∙ by_key k (lookup r k) refl;
      ids = s.ids;
    }
      where
        f : Entry Bkt → Entry Bkt
        f e = touch e now

        by_key :
            (k : Bytes) (o : Option (Entry Bkt))
            → lookup r k ≡ o
            → (if shard_at r k == shard_at r key then changed id f o else o)
              ≡ (if bytes_eq key k then changed id f (d.entry key) else d.entry k)
        by_key k none p = ground (
          arith,
          s.entries k,
          s.entries key,
          bytes_eq_iff key k,
          λ (e : key ≡ k). ap (lookup r) e,
          p,
        )
        by_key k (some e) p = ground (
          arith,
          s.entries k,
          s.entries key,
          bytes_eq_iff key k,
          λ (e : key ≡ k). ap (lookup r) e,
          p,
          λ (e : key ≡ k). ap (shard_at r) e,
          ==_iff (shard_at r k) (shard_at r key),
          ==_iff e.id id,
          b.only k e p,
          λ (e : k ≡ key). sym e,
        )

    pub evict-Shows : (key : Bytes) → Shows (step api r (evicts key)) (put d key none)
    unfolding step
    evict-Shows key = by_lookup (lookup r key) refl
      where
        by_lookup :
            (o : Option (Entry Bkt))
            → lookup r key ≡ o
            → Shows (evicted_if api r key o) (put d key none)
        by_lookup none p = record {
          entries = λ k.
              ground (arith, s.entries k, bytes_eq_iff key k, p, λ (e : key ≡ k). ap (lookup r) e);
          ids = s.ids;
        }
        by_lookup (some e) p = record {
          entries = λ k. gone api r key k v.sharded ∙ ground (arith, s.entries k);
          ids = sym (without_key-Shrinks api r key).same_id ∙ s.ids;
        }

    pub reload_key-Shows :
        (key : Bytes) (now : ℤ) (q : Bytes → Quo)
        → IsOwned r
        → Shows (reload_key api r key now q).0 (act api place d (reloads_key key now q))
    unfolding reload_key put_shard
    reload_key-Shows key now q w = by_lookup (lookup r key) refl
      where
        by_lookup :
            (o : Option (Entry Bkt))
            → lookup r key ≡ o
            → Shows (reload_if api r key now q o).0 (act api place d (reloads_key key now q))
        by_lookup none p = record {
          entries = λ k. ground (
            arith,
            s.entries k,
            s.entries key,
            bytes_eq_iff key k,
            p,
            λ (e : key ≡ k). ap (lookup r) e,
          );
          ids = s.ids;
        }
        by_lookup (some e) p = record {
          entries = λ k.
              lookup-write_owned r key k e (requote api now (q key)) v.sharded w p
              ∙ ground (arith, s.entries k, s.entries key, p);
          ids = s.ids;
        }
