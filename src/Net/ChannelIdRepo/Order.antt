-- ===== src/Net/ChannelIdRepo/Order.antt =====
-- The order in which a new repository of channel_id_repo.rs gives out its ids.
use amqprs.Prelude.{
  ℕ, zero, suc, ◌+◌, ◌*◌, ◌%◌, ◌≤◌, ◌<◌, ◌≡◌, ◌≢◌, refl, ◌∙◌, ap, false, List, [], ◌∷◌, Outcome,
  done, ◌>>=◌, ◌==◌, if◌then◌else◌, leb, arith, length, length-replicate, subst,
}
use amqprs.Net.ChannelIdRepo.{ChannelIdRepository, new, new_len, allocate}
use amqprs.Net.ChannelIdRepo.Laws.{IsValid, is_occupied, allocate_lem}
use amqprs.Net.ChannelIdRepo.Fresh.{new_lem}

-- `n` calls of `allocate`, with the ids in the order of the calls.
unfoldable pub allocate_times : ℕ → ChannelIdRepository → Outcome (ChannelIdRepository × List ℕ)
allocate_times zero repo = done (repo, [])
allocate_times (suc n) repo = do
  (repo', id) ← allocate repo
  (repo'', ids) ← allocate_times n repo'
  done (repo'', id ∷ ids)

abbrev pub count_from : ℕ → ℕ → List ℕ
count_from zero k = []
count_from (suc n) k = k ∷ count_from n (suc k)

-- The ids up to `k` are occupied, and no others.
pub record IsFilled (repo : ChannelIdRepository) (k : ℕ) : Type 0 where
  pub valid : IsValid repo
  pub bits : (j : ℕ) → 1 ≤ j → is_occupied repo j ≡ leb j k

pub allocate_next :
    (repo : ChannelIdRepository) (k : ℕ)
    → IsFilled repo k
    → k < 8 * length repo.id_state
    → k < 65535
    → (repo' : ChannelIdRepository) × (allocate repo ≡ done (repo', suc k))
      × IsFilled repo' (suc k)
      × (length repo'.id_state ≡ length repo.id_state)
allocate_next repo k f h fits =
    let free : is_occupied repo (suc k) ≡ false = ground (arith, f.bits (suc k)) in
    let (repo', id, le, a) = allocate_lem repo (suc k) f.valid (omega arith) (omega arith) free in
    let e : id ≡ suc k = ground (arith, f.bits id a.covered.0, a.was_free) in
    (
      repo',
      a.result ∙ ap (λ (n : ℕ). done (repo', n)) e,
      record {
        valid = a.updates.valid;
        bits = λ j hj. ground (arith, a.updates.bits j hj, f.bits j hj);
      },
      a.updates.size,
    )

allocate_times-IsFilled :
    (n : ℕ) (repo : ChannelIdRepository) (k : ℕ)
    → IsFilled repo k
    → k + n ≤ 8 * length repo.id_state
    → k + n ≤ 65535
    → (repo' : ChannelIdRepository) × (allocate_times n repo ≡ done (repo', count_from n (suc k)))
      × IsFilled repo' (k + n)
      × (length repo'.id_state ≡ length repo.id_state)
unfolding allocate_times
allocate_times-IsFilled zero repo k f h fits =
    (repo, refl, subst (IsFilled repo) (omega arith) f, refl)
allocate_times-IsFilled (suc n) repo k f h fits =
    let (repo', e, f', size) = allocate_next repo k f (omega arith) (omega arith) in
    let (repo'', es, f'', size') =
      allocate_times-IsFilled n repo' (suc k) f' (omega arith) (omega arith) in
    (repo'', rw (e, es) refl, subst (IsFilled repo'') (omega arith) f'', size' ∙ size)

abbrev pub effective_max : ℕ → ℕ
effective_max channel_max = if channel_max == 0 then 65535 else channel_max

new-IsFilled : (channel_max : ℕ) → IsFilled (new channel_max) 0
new-IsFilled channel_max =
    let (valid, free, _, _) = new_lem channel_max in
    record { valid = valid; bits = λ j hj. free j ∙ ground arith }

-- The first channel_max calls of allocate on a new repository (65535 where channel_max is 0)
-- succeed and return 1, 2, 3 and so on, and then just these ids are occupied.
pub allocate_times-new :
    (channel_max n : ℕ)
    → n ≤ effective_max channel_max
    → effective_max channel_max ≤ 65535
    → (repo : ChannelIdRepository) × (allocate_times n (new channel_max)
        ≡ done (repo, count_from n 1))
      × IsFilled repo n
allocate_times-new channel_max n h fits =
    let (_, _, lo, _) = new_lem channel_max in
    let (repo, e, f, _) =
      allocate_times-IsFilled n (new channel_max) 0 (new-IsFilled channel_max) (omega arith)
        (omega arith) in
    (repo, e, subst (IsFilled repo) (omega arith) f)

-- Where channel_max is below 65535 and no multiple of 8, the call after channel_max calls of
-- allocate on a new repository succeeds, and returns channel_max + 1.
pub allocate-beyond_max :
    (channel_max : ℕ)
    → channel_max % 8 ≢ 0
    → channel_max < 65535
    → (repo repo' : ChannelIdRepository) × (allocate_times channel_max (new channel_max)
        ≡ done (repo, count_from channel_max 1))
      × (allocate repo ≡ done (repo', channel_max + 1))
unfolding new new_len
allocate-beyond_max channel_max h fits =
    let size : channel_max < 8 * new_len channel_max = ground arith in
    let same : length (new channel_max).id_state ≡ new_len channel_max =
      length-replicate (new_len channel_max) 0 in
    let (repo, e, f, l) =
      allocate_times-IsFilled channel_max (new channel_max) 0 (new-IsFilled channel_max)
        (omega arith) (omega arith) in
    let f' : IsFilled repo channel_max = subst (IsFilled repo) (omega arith) f in
    let (repo', next, _, _) = allocate_next repo channel_max f' (omega arith) (omega arith) in
    (repo, repo', e, next ∙ ap (λ (n : ℕ). done (repo', n)) (omega arith))
