-- ===== src/Cracen2/Life.antt =====
-- include/cracen2/Cracen2.hpp: the two threads, `release` and the destructor, as uses of `client`. The
-- members are destroyed in the reverse order of their declaration: first `client`, then `outputThread`
-- and `inputThread`, which are joined. No `get()` throws here.
pub mod Before
pub mod Uses
use cracen.Base.{◌≡◌, refl, ◌↔◌, Bool, true, false, ◌||◌, ◌&&◌, not, List, [], ◌∷◌, if◌then◌else◌}

-- A loop evaluates its condition next, is in its body, or is behind it.
pub data Loop : Type 0 where
  asking busy ended : Loop

-- The thread that owns the object: before `release`, behind it, and behind the destruction of `client`,
-- of `outputThread` and of `inputThread`.
pub data Owner : Type 0 where
  using released without_client without_output gone : Owner

-- `is_running` is `client.running`, `receiving` the local `running` of `receiver`. `used_after` tells
-- whether a thread has used `client` after its destruction.
pub record Life : Type 0 where
  pub owner : Owner
  pub client_exists : Bool
  pub is_running : Bool
  pub receiving : Bool
  pub input : Loop
  pub output : Loop
  pub used_after : Bool

-- A step of `receiver`: its condition, or its body, in which CracenClose may arrive; a step of `sender`;
-- the return of `release`; the destruction of a member.
pub data Event : Type 0 where
  input_asks : Event
  input_receives : (is_close : Bool) → Event
  output_asks output_pops : Event
  releases destroys_client joins_output joins_input : Event

unfoldable pub start : Life
start = record {
  owner = using;
  client_exists = true;
  is_running = true;
  receiving = true;
  input = asking;
  output = asking;
  used_after = false;
}

unfoldable pub use_client : Life → Life
use_client s = record s { used_after = s.used_after || not s.client_exists }

-- `while(client.isRunning() && running)`
input_condition : Loop → Life → Life
unfolding use_client
input_condition asking s = record (use_client s) {
  input = if s.is_running && s.receiving then busy else ended;
}
input_condition busy s = s
input_condition ended s = s

-- The front of `pendingReceives` is waited for, and `client.asyncReceive` is called again.
input_body : Bool → Loop → Life → Life
unfolding use_client
input_body is_close busy s = record (use_client s) {
  input = asking;
  receiving = s.receiving && not is_close;
}
input_body is_close asking s = s
input_body is_close ended s = s

-- `while(client.isRunning())`
output_condition : Loop → Life → Life
unfolding use_client
output_condition asking s = record (use_client s) { output = if s.is_running then busy else ended }
output_condition busy s = s
output_condition ended s = s

output_body : Loop → Life → Life
output_body busy s = record s { output = asking }
output_body asking s = s
output_body ended s = s

-- `client.stop()` has joined the management thread, which ends when `running` is false.
release : Owner → Life → Life
unfolding use_client
release using s = record (use_client s) { owner = released; is_running = false }
release _ s = s

-- Without `release`, the destructor of `client` waits for its management thread for ever.
destroy_client : Owner → Life → Life
destroy_client released s = record s { owner = without_client; client_exists = false }
destroy_client _ s = s

join_output : Owner → Loop → Life → Life
join_output without_client ended s = record s { owner = without_output }
join_output _ _ s = s

join_input : Owner → Loop → Life → Life
join_input without_output ended s = record s { owner = gone }
join_input _ _ s = s

unfoldable pub step : Event → Life → Life
unfolding input_condition input_body output_condition output_body release destroy_client join_output
    join_input
step input_asks s = input_condition s.input s
step (input_receives is_close) s = input_body is_close s.input s
step output_asks s = output_condition s.output s
step output_pops s = output_body s.output s
step releases s = release s.owner s
step destroys_client s = destroy_client s.owner s
step joins_output s = join_output s.owner s.output s
step joins_input s = join_input s.owner s.input s

unfoldable pub run : List Event → Life → Life
run [] s = s
run (e ∷ es) s = run es (step e s)
