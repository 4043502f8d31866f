-- ===== src/Cache/Calls.antt =====
-- A run of any calls of the cache's methods.
use lcloud.Base.{ℕ, String, Option, List, [], ◌∷◌, Bool, refl}
use lcloud.Cache.Accounting.{IsAccounted}
use lcloud.Cache.Methods.{
  same-IsAccounted, get-IsAccounted, set-IsAccounted, delete_key-IsAccounted,
  remove_all-IsAccounted, clear-IsAccounted, create-IsAccounted,
}
use lcloud.Cache
use lcloud.Cache.{Reason, TtlCache, create, remove_all}

pub data Call (V : Type 0) : Type 0 where
  get : String → ℕ → Call V
  set : String → V → ℕ → Option ℕ → Option String → ℕ → Call V
  delete delete_prefix delete_namespace : String → Call V
  cleanup_expired : ℕ → Call V
  clear : Call V
  configure : Option Bool → Option ℕ → Option ℕ → Option ℕ → Call V

module _ {V : Type 0} where
  unfoldable pub step : Call V → TtlCache V → TtlCache V
  step (Call.get key now) c = (Cache.get key now c).1
  step (Call.set key v size ttl ns now) c = Cache.set key v size ttl ns now c
  step (Call.delete key) c = Cache.delete_key key c
  step (Call.delete_prefix prefix) c = (Cache.delete_prefix prefix c).1
  step (Call.delete_namespace ns) c = (Cache.delete_namespace ns c).1
  step (Call.cleanup_expired now) c = (Cache.cleanup_expired now c).1
  step Call.clear c = Cache.clear c
  step (Call.configure enabled ttl entries bytes) c = Cache.configure enabled ttl entries bytes c

  unfoldable pub run : List (Call V) → TtlCache V → TtlCache V
  unfolding step
  run [] c = c
  run (call ∷ calls) c = run calls (step call c)

  step-IsAccounted : (call : Call V) (c : TtlCache V) → IsAccounted c → IsAccounted (step call c)
  unfolding step Cache.delete_prefix Cache.delete_namespace Cache.cleanup_expired Cache.configure
  step-IsAccounted (Call.get key now) c a = get-IsAccounted key now c a
  step-IsAccounted (Call.set key v size ttl ns now) c a = set-IsAccounted key v size ttl ns now c a
  step-IsAccounted (Call.delete key) c a = delete_key-IsAccounted key c a
  step-IsAccounted (Call.delete_prefix prefix) c a =
      same-IsAccounted (remove_all _ Reason.delete c) _ refl refl refl refl
        (remove_all-IsAccounted _ Reason.delete c a)
  step-IsAccounted (Call.delete_namespace ns) c a =
      same-IsAccounted (remove_all _ Reason.delete c) _ refl refl refl refl
        (remove_all-IsAccounted _ Reason.delete c a)
  step-IsAccounted (Call.cleanup_expired now) c a = remove_all-IsAccounted _ Reason.expired c a
  step-IsAccounted Call.clear c a = clear-IsAccounted c
  step-IsAccounted (Call.configure enabled ttl entries bytes) c a =
      same-IsAccounted c _ refl refl refl refl a

  run-IsAccounted_from :
      (calls : List (Call V)) (c : TtlCache V) → IsAccounted c → IsAccounted (run calls c)
  unfolding run
  run-IsAccounted_from [] c a = a
  run-IsAccounted_from (call ∷ calls) c a =
      run-IsAccounted_from calls (step call c) (step-IsAccounted call c a)

  -- After any calls on a new cache no key is listed twice, `_bytes` is the sum of the sizes of the
  -- entries, and for each namespace the two counters are the number and the bytes of its entries.
  pub run-IsAccounted :
      (calls : List (Call V)) (ttl entries bytes : ℕ) (enabled : Bool)
      → IsAccounted (run calls (create {V = V} ttl entries bytes enabled))
  run-IsAccounted calls ttl entries bytes enabled =
      run-IsAccounted_from calls (create ttl entries bytes enabled)
        (create-IsAccounted ttl entries bytes enabled)
