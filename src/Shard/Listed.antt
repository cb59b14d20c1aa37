-- ===== src/Shard/Listed.antt =====
-- Lists of keys that hold exactly the keys of a map, each once: the recency and the insertion list
-- (internal/store/lru.go, evict.go).
use cache_custom.Prelude.{
  ℕ, Option, ◌≡◌, refl, sym, ◌∙◌, Bool, true, false, not, ◌&&◌, List, [], ◌∷◌, ◌++◌, ite, arith,
  subst,
}
use cache_custom.Bytes.{Bytes, dec_bytes}
use cache_custom.Dict
use cache_custom.Dict.{Dict, lookup-delete, lookup-insert}
use cache_custom.Lfu.{erase, member}
use cache_custom.Shard.{Entry, Shard, drop, add_new, overwrite, touch, ttl_update, ttl_remove}
use cache_custom.Shard.Pick.{is_some}

unfoldable pub once : List Bytes → Bool
unfolding member
once [] = true
once (k ∷ ks) = not (member k ks) && once ks

-- The list holds exactly the keys that pass the test, each once.
pub record IsExact (ks : List Bytes) (p : Bytes → Bool) : Type 0 where
  pub single : once ks ≡ true
  pub holds : (j : Bytes) → member j ks ≡ p j

member-erase_le :
    (k j : Bytes) (ks : List Bytes) → member j ks ≡ false → member j (erase k ks) ≡ false
unfolding member erase
member-erase_le k j [] h = refl
member-erase_le k j (x ∷ ks) h = ground (arith, member-erase_le k j ks)

member-erase :
    (k j : Bytes) (ks : List Bytes)
    → once ks ≡ true
    → member j (erase k ks) ≡ ite (dec_bytes k j) false (member j ks)
unfolding member erase once
member-erase k j [] h = ground arith
member-erase k j (x ∷ ks) h =
    let same : x ≡ j → member x ks ≡ member j ks =
      λ p. subst (λ i. member x ks ≡ member i ks) p refl in
    ground (arith, member-erase k j ks, same)

once-erase : (k : Bytes) (ks : List Bytes) → once ks ≡ true → once (erase k ks) ≡ true
unfolding once erase
once-erase k [] h = refl
once-erase k (x ∷ ks) h = ground (arith, once-erase k ks, member-erase_le k x ks)

member-push :
    (k j : Bytes) (ks : List Bytes)
    → member j (ks ++ k ∷ []) ≡ ite (dec_bytes k j) true (member j ks)
unfolding member
member-push k j [] = ground arith
member-push k j (x ∷ ks) = ground (arith, member-push k j ks)

once-push :
    (k : Bytes) (ks : List Bytes)
    → once ks ≡ true
    → member k ks ≡ false
    → once (ks ++ k ∷ []) ≡ true
unfolding once member
once-push k [] h e = refl
once-push k (x ∷ ks) h e = ground (arith, once-push k ks, member-push k x ks)

module _ (k : Bytes) (ks : List Bytes) (p q : Bytes → Bool) (h : IsExact ks p) where
  pub IsExact-same : ((j : Bytes) → q j ≡ p j) → IsExact ks q
  IsExact-same e = record { single = h.single; holds = λ j. h.holds j ∙ sym (e j) }

  pub IsExact-erase : ((j : Bytes) → q j ≡ ite (dec_bytes k j) false (p j)) → IsExact (erase k ks) q
  IsExact-erase e = record {
    single = once-erase k ks h.single;
    holds = λ j. ground (arith, member-erase k j ks, h.single, h.holds j, e j);
  }

  pub IsExact-push :
      p k ≡ false → ((j : Bytes) → q j ≡ ite (dec_bytes k j) true (p j)) → IsExact (ks ++ k ∷ []) q
  IsExact-push out e = record {
    single = once-push k ks h.single (h.holds k ∙ out);
    holds = λ j. ground (arith, member-push k j ks, h.holds j, e j);
  }

  -- A key that is there moves to the end.
  pub IsExact-move : p k ≡ true → ((j : Bytes) → q j ≡ p j) → IsExact (erase k ks ++ k ∷ []) q
  IsExact-move there e = record {
    single =
        once-push k (erase k ks) (once-erase k ks h.single)
          (ground (arith, member-erase k k ks, h.single));
    holds = λ j.
        let same : k ≡ j → p j ≡ true = λ r. subst (λ i. p i ≡ true) r there in
        ground (
          arith,
          member-push k j (erase k ks),
          member-erase k j ks,
          h.single,
          h.holds j,
          e j,
          same,
        );
  }

abbrev pub held : Dict Entry → Bytes → Bool
held d k = is_some (Dict.lookup k d)

-- The lists of a shard hold exactly the keys of its map.
pub record IsListed (sh : Shard) : Type 0 where
  pub recency : IsExact sh.lru (held sh.data')
  pub insertion : IsExact sh.fifo (held sh.data')

-- A map where one entry is written or taken away.
held-insert :
    (k j : Bytes) (e : Entry) (d : Dict Entry)
    → held (Dict.insert k e d) j ≡ ite (dec_bytes k j) true (held d j)
held-insert k j e d = ground (arith, lookup-insert k j e d)

held-delete :
    (k j : Bytes) (d : Dict Entry) → held (Dict.delete k d) j ≡ ite (dec_bytes k j) false (held d j)
held-delete k j d = ground (arith, lookup-delete k j d)

held-again :
    (k j : Bytes) (e : Entry) (d : Dict Entry)
    → held d k ≡ true
    → held (Dict.insert k e d) j ≡ held d j
held-again k j e d h =
    let same : k ≡ j → held d j ≡ true = λ r. subst (λ i. held d i ≡ true) r h in
    ground (arith, held-insert k j e d, same)

module _ (k : Bytes) (e : Entry) (sh : Shard) (h : IsListed sh) where
  pub drop-IsListed : IsListed (drop k e sh)
  unfolding drop ttl_remove
  drop-IsListed = record {
    recency = IsExact-erase k sh.lru _ _ h.recency (λ j. held-delete k j sh.data');
    insertion = IsExact-erase k sh.fifo _ _ h.insertion (λ j. held-delete k j sh.data');
  }

  pub add_new-IsListed : held sh.data' k ≡ false → IsListed (add_new k e sh)
  unfolding add_new ttl_update
  add_new-IsListed out = record {
    recency = IsExact-push k sh.lru _ _ h.recency out (λ j. held-insert k j e sh.data');
    insertion = IsExact-push k sh.fifo _ _ h.insertion out (λ j. held-insert k j e sh.data');
  }

  pub touch-IsListed : held sh.data' k ≡ true → IsListed (touch k e sh)
  unfolding touch
  touch-IsListed there = record {
    recency = IsExact-move k sh.lru _ _ h.recency there (λ j. held-again k j _ sh.data' there);
    insertion = IsExact-same k sh.fifo _ _ h.insertion (λ j. held-again k j _ sh.data' there);
  }

  -- The entry is written, and then touched.
  pub overwrite-IsListed :
      (value : Bytes) (n : ℕ) (t : Option ℕ)
      → held sh.data' k ≡ true
      → IsListed (overwrite k e value n t sh)
  unfolding overwrite touch ttl_update
  overwrite-IsListed value n t there =
      let twice : (f g : Entry) (j : Bytes)
          → held (Dict.insert k f (Dict.insert k g sh.data')) j ≡ held sh.data' j =
        λ f g j.
          held-again k j f (Dict.insert k g sh.data') (held-again k k g sh.data' there ∙ there)
          ∙ held-again k j g sh.data' there in
      record {
        recency = IsExact-move k sh.lru _ _ h.recency there (twice _ _);
        insertion = IsExact-same k sh.fifo _ _ h.insertion (twice _ _);
      }

  -- The entry is written with another expiry.
  pub insert-IsListed :
      (t : Option ℕ)
      → held sh.data' k ≡ true
      → IsListed (ttl_update k t (record sh { data' = Dict.insert k e sh.data' }))
  unfolding ttl_update
  insert-IsListed t there = record {
    recency = IsExact-same k sh.lru _ _ h.recency (λ j. held-again k j e sh.data' there);
    insertion = IsExact-same k sh.fifo _ _ h.insertion (λ j. held-again k j e sh.data' there);
  }
