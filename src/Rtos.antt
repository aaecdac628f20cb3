-- ===== src/Rtos.antt =====
-- FreeRTOS, which is not in the repository, as include/Thread.hpp calls it. A handle is a number, and
-- `none` stands for a null handle.
use base_utilities_esp.Base.{ℕ, String, Bool, Option}

pub record Rtos : Type 1 where
  pub World : Type 0
  -- xTaskCreate and xTaskCreatePinnedToCore: the handle of the task, or none if it is not pdPASS.
  pub task_create : World → String → (stack_size priority : ℕ) → Option ℕ × World
  pub task_create_pinned : World → String → (stack_size priority core : ℕ) → Option ℕ × World
  -- vTaskDelete: a null handle stands for the calling task.
  pub task_delete : World → Option ℕ → World
  -- `eTaskGetState(h) == eDeleted`; the call does not allow a null handle.
  pub is_deleted : World → ℕ → Bool
  pub tick_count : World → ℕ
  -- vTaskDelay: the other tasks run.
  pub task_delay : World → ℕ → World
  -- pdMS_TO_TICKS
  pub ms_to_ticks : ℕ → ℕ
  pub priority_get : World → ℕ → ℕ
  pub priority_set : World → ℕ → ℕ → World
  pub stack_high_water_mark : World → ℕ → ℕ
  -- Whether a task has come to the end of `Thread::task_entry`.
  pub has_finished : World → ℕ → Bool
