-- ===== src/Controller/Handlers/Laws.antt =====
-- Which events put which keys on the queue.
use jupyter_operator.Controller.{Controller}
