-- ===== src/Store/Records/Pages.antt =====
-- Cache, Persist, Set, Unset and the loading functions of commons/types/page.go.
use disgo.Prelude.{◌≡◌, refl, Option, none, some}
use disgo.Prelude.Text.{Bytes}
use disgo.Crypto.{External}
use disgo.Types.Errors.{Result, ok, err, panic, ◌>>=◌, not_found}
use disgo.Types.Page
use disgo.Types.Page.{Page}
use disgo.Store.Defs.{json, Cached, Stores, IsStore, IsCache}
use disgo.Store.Records.{decode}

module _ (s : Stores) where
  unfoldable pub cache_page : Page → s.Cache → s.Cache
  cache_page p c = s.cache_set c (Page.key p.number) (Cached.page p)

  abbrev as_page : Option Cached → Result Page
  as_page none = err not_found
  as_page (some (Cached.page p)) = ok p
  as_page (some _) = panic

  -- ToPageFromCache, which looks for what it is given, and adds no prefix
  unfoldable pub to_page_from_cache : s.Cache → Bytes → Result Page
  to_page_from_cache c number = as_page (s.cache_get c number)

module _ (s : Stores) (x : External) where
  unfoldable pub persist_page : Page → s.Txn → Result s.Txn
  persist_page p txn = s.txn_set txn (Page.key p.number) (json (Page.marshal x p))

  -- Set
  unfoldable pub set_page : Page → s.Txn → s.Cache → s.Cache × Result s.Txn
  set_page p txn c = (cache_page s p c, persist_page p txn)

  -- Unset
  unfoldable pub unset_page : Page → s.Txn → s.Cache → s.Cache × Result s.Txn
  unset_page p txn c = (s.cache_delete c (Page.key p.number), s.txn_delete txn (Page.key p.number))

  -- ToPageByKey
  unfoldable pub to_page_by_key : s.Txn → Bytes → Result Page
  to_page_by_key txn k = do v ← s.txn_get txn k; decode (Page.from_json x) v

  -- A page that has been set is found by its key in the cache, and in the database if it is written
  -- there and decoded as it was.
  pub to_page-set :
      (p : Page) (txn u : s.Txn) (c : s.Cache)
      → IsStore s
      → IsCache s
      → Page.from_json x (Page.marshal x p) ≡ ok p
      → (set_page p txn c).1 ≡ ok u
      → (to_page_from_cache s (set_page p txn c).0 (Page.key p.number) ≡ ok p)
        × (to_page_by_key u (Page.key p.number) ≡ ok p)
  unfolding set_page cache_page persist_page to_page_from_cache to_page_by_key
  to_page-set p txn u c laws cache_laws read e = (
    rw (cache_laws.get-set_self c (Page.key p.number) (Cached.page p)) refl,
    rw (laws.get-set_self txn u (Page.key p.number) (json (Page.marshal x p)) e) read,
  )
