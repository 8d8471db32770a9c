-- ===== src/Worker/Lifecycle/Tests.antt =====
-- Runs of the thread of custom_components/hass_questdb_writer/worker.py.
use hass_questdb_writer.Prelude.{◌≡◌, refl, true, false, inl, inr}
use hass_questdb_writer.Worker.Lifecycle.{
  Service, fresh, start_thread, begin_stop, open_thread, end_thread, Steps, stays, goes, starts,
  stops, opens, ends_serving,
}
use hass_questdb_writer.Worker.Lifecycle.Reached.{IsSound, Steps-IsSound, IsOver, Steps-IsOver}

fresh-IsSound : IsSound fresh
fresh-IsSound = record { accepts = inl refl; unused = inr refl }

abbrev begun : Service
begun = (start_thread fresh).1

abbrev served : Service
served = open_thread begun

abbrev stopped_while_serving : Service
stopped_while_serving = (begin_stop served).1

abbrev ended : Service
ended = end_thread false stopped_while_serving

life : Steps fresh ended
unfolding start_thread open_thread begin_stop
life = goes (starts fresh) (
    goes (opens begun refl)
      (goes (stops served) (goes (ends_serving stopped_while_serving false refl) (stays ended))))

Steps-IsSound_example : IsSound ended
Steps-IsSound_example = Steps-IsSound life fresh-IsSound

once_more : Steps ended (start_thread ended).1
once_more = goes (starts ended) (stays (start_thread ended).1)

Steps-IsOver_example : IsOver (start_thread ended).1
unfolding end_thread start_thread open_thread begin_stop
Steps-IsOver_example = Steps-IsOver once_more (Steps-IsSound life fresh-IsSound) (refl, refl)

-- A stop before the thread has its resources, and before it asked for the end: the thread accepts
-- events again.
abbrev stopped_early : Service
stopped_early = open_thread (begin_stop begun).1

accepts_again : stopped_early.accepting ≡ true
unfolding start_thread begin_stop open_thread
accepts_again = refl
