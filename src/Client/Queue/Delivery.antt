-- ===== src/Client/Queue/Delivery.antt =====
-- The work queue: what is taken from it, and what a requeued item does to it.
use porter_agent.Base.{ℤ, ◌≡◌, List, ◌∷◌, subst}
use porter_agent.Result.{ok, err, no_pending_item}
use porter_agent.Redis.Takes.{Takes, Takes-bind, Takes-call, Takes-pure, Takes-raise}
use porter_agent.Client.Queue.{get_item_from_pending_queue, requeue_item_with_score}
use porter_agent.Redis.{Redis}
use porter_agent.Redis.Keyspace.{
  Dataset, Scored, absent, scores, put_scores, scores-ne-absent, put, as_scores-put_scores,
}
use porter_agent.Client.Keys.{pending_key}
use porter_agent.Redis.Order.{IsLeast, add_scored_first}
use porter_agent.Redis.Action.{◌>>=◌, call}
use porter_agent.Text.{Text}
use porter_agent.Redis.Laws.{exists_absent, exists_present, zadd-Replies, zpopmin-Replies}

module _ {redis : Redis} where
  -- With the server up, an empty queue is reported by the sentinel error.
  pub get_item-empty :
      (d : Dataset)
      → d.values pending_key ≡ absent
      → Takes redis (get_item_from_pending_queue redis) d (err no_pending_item) d
  unfolding get_item_from_pending_queue
  get_item-empty d h = Takes-bind _ (Takes-call _ (exists_absent redis _ d h)) (Takes-raise _ d)

  -- With the server up, the item with the least score is taken, and it leaves the queue.
  pub get_item-least :
      (d : Dataset) (a : Scored) (l : List Scored)
      → d.values pending_key ≡ scores (a ∷ l)
      → Takes redis
          (get_item_from_pending_queue redis)
          d
          (ok (a.member, a.score))
          (put_scores pending_key l d)
  unfolding get_item_from_pending_queue
  get_item-least d a l h =
      Takes-bind _ (Takes-call _ (exists_present redis _ d (scores-ne-absent h)))
        (Takes-bind _ (Takes-call _ (zpopmin-Replies redis _ d a l h)) (Takes-pure _ _))

  -- An item that was the least of the queue comes back to the front.
  pub requeue-Takes :
      (a : Scored) (l : List Scored) (d : Dataset)
      → IsLeast a l
      → Takes redis
          (requeue_item_with_score redis a.member a.score)
          (put_scores pending_key l d)
          (ok tt)
          (put pending_key (scores (a ∷ l)) (put_scores pending_key l d))
  unfolding requeue_item_with_score
  requeue-Takes a l d least =
      subst
        (λ q.
          Takes redis (call (redis.zadd pending_key a.score a.member)) (put_scores pending_key l d)
            (ok tt) (put pending_key (scores q) (put_scores pending_key l d)))
        (add_scored_first a l least)
        (Takes-call _ (zadd-Replies redis _ _ _ _ l (as_scores-put_scores pending_key l d)))

  -- With the server up, the first item of the queue, if it is the least one and the only one with
  -- its member, is taken and put back with its score, and the queue is as it was.
  pub requeue-get_item :
      (d : Dataset) (a : Scored) (l : List Scored)
      → d.values pending_key ≡ scores (a ∷ l)
      → IsLeast a l
      → Takes redis
          (get_item_from_pending_queue redis >>= λ (item : Text × ℤ).
            requeue_item_with_score redis item.0 item.1)
          d
          (ok tt)
          (put pending_key (scores (a ∷ l)) (put_scores pending_key l d))
  requeue-get_item d a l h least = Takes-bind _ (get_item-least d a l h) (requeue-Takes a l d least)
