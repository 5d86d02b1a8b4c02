-- ===== src/Client/Pools/Tests.antt =====
-- A pool opened at fixed settings.

use pace.Config.{resolve}
use pace.Config.Options.{no_options}
use pace.Client.Pools.{new}
use pace.Client.Pools.Opening.{Opens, new-Opens}
use pace.Urlx.Tests.{urls}
use pace.Samples.{floats, float_laws, rates, settings, standard}

new-Opens_example :
    Opens rates
      (resolve floats urls standard settings)
      (new rates urls standard settings no_options)
new-Opens_example = new-Opens rates urls standard float_laws settings no_options
