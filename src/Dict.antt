-- ===== src/Dict.antt =====
-- Python's `dict` and `collections.OrderedDict`: the entries in insertion order, oldest first.
-- A key stands at most once (`IsUnique`), which every operation here keeps.
pub mod Laws
pub mod Evict
use discord_chat_bot.Prelude.{
  ℕ, ◌≡◌, none, some, List, [], ◌∷◌, ◌++◌, ite, lookup, length, ltb, if◌then◌else◌,
}

abbrev pub Dict {ℓ} : Type ℓ → Type ℓ → Type ℓ
Dict K V = List (K × V)

-- `d.popitem(last=False)`, with the entry dropped
unfoldable pub drop_oldest {ℓ} : {K V : Type ℓ} → Dict K V → Dict K V
drop_oldest [] = []
drop_oldest (e ∷ d) = d

-- `while len(d) > limit: d.popitem(last=False)`
unfoldable pub evict {ℓ} : {K V : Type ℓ} → ℕ → Dict K V → Dict K V
evict limit [] = []
evict limit (e ∷ d) = let rest = evict limit d in if ltb limit (length (e ∷ d)) then rest else e ∷ d

module _ {ℓ} {K V : Type ℓ} (dec : Discrete K) where
  -- `d.pop(k, None)`
  unfoldable pub remove : K → Dict K V → Dict K V
  remove k [] = []
  remove k ((j, v) ∷ d) = let rest = remove k d in ite (dec k j) rest ((j, v) ∷ rest)

  -- `d[k] = v`: in place for a key that is there, else at the end
  unfoldable pub set : K → V → Dict K V → Dict K V
  set k v [] = (k, v) ∷ []
  set k v ((j, w) ∷ d) = ite (dec k j) ((k, v) ∷ d) ((j, w) ∷ set k v d)

  -- `d.move_to_end(k)`, at a key that is there
  unfoldable pub move_to_end : K → Dict K V → Dict K V
  unfolding remove
  move_to_end k d = elim (lookup dec k d) [ none ↦ d | some v ↦ remove k d ++ (k, v) ∷ [] ]

  abbrev pub IsUnique : Dict K V → Type ℓ
  IsUnique [] = Unit
  IsUnique ((k, v) ∷ d) = (lookup dec k d ≡ none) × IsUnique d
