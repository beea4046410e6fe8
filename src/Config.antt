-- ===== src/Config.antt =====
-- proxy/config_loader.py and proxy/config_watcher.py: which proxies a configuration names, and which
-- of its keys a running server takes over.
pub mod Collect
pub mod Watcher
use proxysplit.Base.{
  to_set, String, Bool, true, false, not, ◌&&◌, List, [], ◌∷◌, ◌++◌, if◌then◌else◌, ◌==◌, string_eq,
  contains,
}
use proxysplit.Cache.Control.{codes}
use proxysplit.Dict.{Dict, lookup, insert}
use proxysplit.Registry.{Tags}
use proxysplit.Text.{Text, starts_with, strip}

abbrev pub is_empty : Text → Bool
is_empty [] = true
is_empty (c ∷ s) = false

-- `load_proxy_file`, from the lines of the file.
unfoldable pub load_proxy_file : List Text → List Text
unfolding strip
load_proxy_file [] = []
load_proxy_file (line ∷ lines) =
    let rest = load_proxy_file lines in
    if not (is_empty (strip line)) && not (starts_with (codes "#") (strip line))
    then strip line ∷ rest
    else rest

-- An item of `proxies` in the configuration: a `dict` with a URL (empty if it has none) and tags, a
-- text, or anything else.
pub data Item : Type 0 where
  tagged : String → List String → Item
  plain : String → Item
  ignored : Item

pub record Collected : Type 0 where
  pub proxies : List String
  pub tags : Tags

-- `_add`; the set `seen` has the proxies of the list.
unfoldable pub add_proxy : String → List String → List String
add_proxy p proxies = if contains proxies p then proxies else proxies ++ p ∷ []

unfoldable pub add_item : Item → Collected → Collected
unfolding add_proxy to_set
add_item (tagged url tags) c =
    if url == ""
    then c
    else record { proxies = add_proxy url c.proxies; tags = insert url (to_set tags) c.tags }
add_item (plain p) c = record c { proxies = add_proxy p c.proxies }
add_item ignored c = c

unfoldable pub add_items : List Item → Collected → Collected
unfolding add_item
add_items [] c = c
add_items (i ∷ items) c = add_items items (add_item i c)

unfoldable pub add_proxies : List String → Collected → Collected
unfolding add_proxy
add_proxies [] c = c
add_proxies (p ∷ ps) c = add_proxies ps (record c { proxies = add_proxy p c.proxies })

abbrev pub concat : List (List String) → List String
concat [] = []
concat (f ∷ fs) = f ++ concat fs

-- `collect_proxies`: the items, then the proxies of the files one after the other, and of the free
-- list (none where it is not used).
unfoldable pub collect_proxies : List Item → List (List String) → List String → Tags → Collected
unfolding add_items add_proxies
collect_proxies items files free_list tags =
    let from_items = add_items items (record { proxies = []; tags = tags }) in
    add_proxies (concat files ++ free_list) from_items

-- `{k: v for k, v in new_cfg.items() if k in LIVE_KEYS}`
unfoldable pub live_config {ℓ} : {V : Type ℓ} → List String → Dict String V → Dict String V
live_config live_keys [] = []
live_config live_keys ((k, v) ∷ cfg) =
    let rest = live_config live_keys cfg in if contains live_keys k then (k, v) ∷ rest else rest

-- `config.update(new_cfg)`
unfoldable pub merge {ℓ} : {V : Type ℓ} → Dict String V → Dict String V → Dict String V
merge [] running = running
merge ((k, v) ∷ cfg) running = merge cfg (insert k v running)
